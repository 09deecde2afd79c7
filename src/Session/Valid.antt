-- ===== src/Session/Valid.antt =====
-- The invariant of the session table of internal/fetch/session.go.
use tls_fetch_mcp.Common.{
  Bool-cases, Option-cases, [], arith, false, inl, inr, leb_ℤ, length, ltb_ℤ, max, pos, some, ℕ, ℤ,
  ◌+◌, ◌≡◌, ◌≤ℤ◌, ◌≤◌,
}
use tls_fetch_mcp.Session.Cookies.{AllCookies}
use tls_fetch_mcp.Text.{Bytes, eq_bytes}
use tls_fetch_mcp.Clock.{Time}
use tls_fetch_mcp.Table.{lookup, insert, Distinct}
use tls_fetch_mcp.Table.Laws.{
  AllKeys, AllKeys-lookup, retain-Distinct, delete-Distinct, insert-Distinct, length-retain-le,
  length-delete-le, length-insert-le, length-insert_present, retain-AllKeys, delete-AllKeys,
  insert-AllKeys,
}
use tls_fetch_mcp.Errors.{ok, Result-cases}
use tls_fetch_mcp.Fetcher.{Fetcher, SessionState}
use tls_fetch_mcp.Session.{
  validate_session_id, purge_expired_sessions, open_session, session, touch_session, remove_session,
  clear_session, session_info, opened,
}

-- The identifier passes `validateSessionID`.
abbrev pub IsSessionId : Bytes → Type 0
IsSessionId session_id = validate_session_id session_id ≡ ok tt

-- No identifier twice, each of them valid, and no more sessions than the configuration admits.
pub record IsValid {Jar : Type 0} (f : Fetcher Jar) : Type 0 where
  pub distinct : Distinct f.sessions
  pub ids : AllKeys IsSessionId f.sessions
  pub bounded : pos (length f.sessions) ≤ℤ f.config.max_sessions

room_for_one : (max : ℤ) (n m : ℕ) → leb_ℤ max (pos n) ≡ false → m ≤ n + 1 → pos m ≤ℤ max
room_for_one max n m room le = ground arith

module _ {Jar : Type 0} where
  purge-IsValid :
      (now : Time) (f : Fetcher Jar) → IsValid f → IsValid (purge_expired_sessions now f)
  unfolding purge_expired_sessions
  purge-IsValid now f v = record {
    distinct = retain-Distinct _ f.sessions v.distinct;
    ids = retain-AllKeys IsSessionId _ f.sessions v.ids;
    bounded = omega (arith, length-retain-le (λ s. ltb_ℤ now s.expires_at) f.sessions, v.bounded);
  }

  -- A write to a session that is there.
  rewrite-IsValid :
      (f : Fetcher Jar) (session_id : Bytes) (state old : SessionState Jar)
      → IsSessionId session_id
      → lookup session_id f.sessions ≡ some old
      → IsValid f
      → IsValid (record f { sessions = insert session_id state f.sessions })
  rewrite-IsValid f session_id state old i e v = record {
    distinct = insert-Distinct session_id state f.sessions v.distinct;
    ids = insert-AllKeys IsSessionId session_id state f.sessions i v.ids;
    bounded = omega (arith, length-insert_present session_id state f.sessions e, v.bounded);
  }

  open-IsValid :
      (new_jar : Jar) (now : Time) (session_id : Bytes) (f : Fetcher Jar)
      → IsSessionId session_id
      → IsValid f
      → IsValid (open_session new_jar now session_id f).0
  unfolding open_session
  open-IsValid new_jar now session_id f i v = elim (Option-cases (lookup session_id f.sessions)) [
    | inr (old, e) ↦ rw (e, open_session) (rewrite-IsValid f session_id _ old i e v)
    | inl e ↦ elim (Bool-cases (leb_ℤ f.config.max_sessions (pos (length f.sessions)))) [
      | inl full ↦ rw (e, full, open_session) v
      | inr room ↦
          rw (e, room, open_session)
            (record {
              distinct = insert-Distinct session_id _ f.sessions v.distinct;
              ids = insert-AllKeys IsSessionId session_id _ f.sessions i v.ids;
              bounded =
                  room_for_one f.config.max_sessions (length f.sessions) _ room
                    (length-insert-le session_id (opened f now new_jar) f.sessions);
            })
    ]
  ]

  -- `session` keeps the invariant of the table, on every branch: an identifier that is refused, a session in use, a
  -- full table, and a new session.
  pub session-IsValid :
      (new_jar : Jar) (now : Time) (session_id : Bytes) (f : Fetcher Jar)
      → IsValid f
      → IsValid (session new_jar now session_id f).0
  unfolding session
  session-IsValid new_jar now session_id f v =
      elim (Result-cases (validate_session_id session_id)) [
        | inr (x, e) ↦ rw (e, session) v
        | inl (t, e) ↦
            rw (e, session)
              (open-IsValid new_jar now session_id (purge_expired_sessions now f) e
                (purge-IsValid now f v))
      ]

  remove-IsValid :
      (session_id : Bytes) (f : Fetcher Jar) → IsValid f → IsValid (remove_session session_id f).0
  unfolding remove_session
  remove-IsValid session_id f v = elim (Option-cases (lookup session_id f.sessions)) [
    | inl e ↦ rw (e, remove_session) v
    | inr (old, e) ↦
        rw (e, remove_session)
          (record {
            distinct = delete-Distinct session_id f.sessions v.distinct;
            ids = delete-AllKeys IsSessionId session_id f.sessions v.ids;
            bounded = omega (arith, length-delete-le session_id f.sessions, v.bounded);
          })
  ]

  -- `ClearSession` keeps the invariant, on every branch.
  pub clear_session-IsValid :
      (now : Time) (session_id : Bytes) (f : Fetcher Jar)
      → IsValid f
      → IsValid (clear_session now session_id f).0
  unfolding clear_session
  clear_session-IsValid now session_id f v = elim (Result-cases (validate_session_id session_id)) [
    | inr (x, e) ↦ rw (e, clear_session) v
    | inl (t, e) ↦
        rw (e, clear_session)
          (remove-IsValid session_id (purge_expired_sessions now f) (purge-IsValid now f v))
  ]

  -- `SessionInfo`, which purges, keeps the invariant.
  pub session_info-IsValid :
      (format_time : Time → Bytes) (all_cookies : Jar → AllCookies) (now : Time)
      (session_id : Bytes) (f : Fetcher Jar)
      → IsValid f
      → IsValid (session_info format_time all_cookies now session_id f).0
  unfolding session_info
  session_info-IsValid format_time all_cookies now session_id f v =
      elim (Result-cases (validate_session_id session_id)) [
        | inr (x, e) ↦ rw (e, session_info) v
        | inl (t, e) ↦ rw (e, session_info) (purge-IsValid now f v)
      ]

  -- `touchSession` keeps the invariant, whether or not the session is still in the table.
  pub touch_session-IsValid :
      (now : Time) (session_id : Bytes) (f : Fetcher Jar)
      → IsValid f
      → IsValid (touch_session now session_id f)
  unfolding touch_session
  touch_session-IsValid now session_id f v = elim (Bool-cases (eq_bytes session_id [])) [
    | inl empty ↦ rw (empty, touch_session) v
    | inr named ↦ elim (Option-cases (lookup session_id f.sessions)) [
      | inl e ↦ rw (named, e, touch_session) v
      | inr (old, e) ↦
          rw (named, e, touch_session)
            (rewrite-IsValid f session_id _ old
              (AllKeys-lookup IsSessionId session_id f.sessions v.ids e) e v)
    ]
  ]
