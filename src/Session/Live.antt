-- ===== src/Session/Live.antt =====
-- internal/fetch/session.go as a client sees it: a table in which an expired session counts as absent.
use tls_fetch_mcp.Common.{
  Bool, Bool-cases, Option, Option-cases, [], ap, arith, false, if◌then◌else◌, inl, inr, is_some,
  leb_ℤ, length, none, pos, refl, some, ◌∙◌, ◌≡◌, ◌≢◌, ◌≤ℤ◌, ◌⊎◌,
}
use tls_fetch_mcp.Session.Cookies.{AllCookies}
use tls_fetch_mcp.Text.{Bytes, eq_bytes, eq_bytes_iff}
use tls_fetch_mcp.Clock.{Time}
use tls_fetch_mcp.Table.{lookup, insert, Distinct}
use tls_fetch_mcp.Table.Expiry.{
  purge, live, fresh, lookup-purge, live-purge, live-insert, live-delete,
}
use tls_fetch_mcp.Table.Laws.{keep}
use tls_fetch_mcp.Errors.{Result, ok, err, session_limit, Result-cases}
use tls_fetch_mcp.Fetcher.{Fetcher, SessionState}
use tls_fetch_mcp.Session.{
  validate_session_id, purge_expired_sessions, open_session, session, touch_session, remove_session,
  clear_session, session_info, refreshed, opened, describe,
}

module _ {Jar : Type 0} where
  abbrev pub expires : SessionState Jar → Time
  expires s = s.expires_at

  -- The session that a client sees under an identifier at a time.
  abbrev pub seen : Fetcher Jar → Time → Bytes → Option (SessionState Jar)
  seen f later session_id = live expires later f.sessions session_id

  -- `g` shows what `f` shows, from the time on, but for one identifier, under which it shows what
  -- `change` says.
  abbrev pub Changes : Time → Bytes → Option (SessionState Jar) → Fetcher Jar → Fetcher Jar → Type 0
  Changes now session_id change f g =
      (later : Time) (j : Bytes)
      → now ≤ℤ later
      → seen g later j
        ≡ (if eq_bytes j session_id then keep (fresh expires later) change else seen f later j)

  -- `g` shows what `f` shows, from the time on.
  abbrev pub Same : Time → Fetcher Jar → Fetcher Jar → Type 0
  Same now f g = (later : Time) (j : Bytes) → now ≤ℤ later → seen g later j ≡ seen f later j

  -- The jar that a use of the session yields, and the state that it leaves.
  abbrev pub jar_for : Jar → Option (SessionState Jar) → Jar
  jar_for new_jar none = new_jar
  jar_for new_jar (some state) = state.jar

  abbrev pub after_use : Fetcher Jar → Time → Jar → Option (SessionState Jar) → SessionState Jar
  after_use f now new_jar none = opened f now new_jar
  after_use f now new_jar (some state) = refreshed f now state

  -- What `session` does: it yields the jar of the session that is seen, or a new one.
  abbrev pub Used : Jar → Time → Bytes → Fetcher Jar → Fetcher Jar × Result Jar → Type 0
  Used new_jar now session_id f (g, ok jar) =
      (jar ≡ jar_for new_jar (seen f now session_id))
      × Changes now session_id (some (after_use f now new_jar (seen f now session_id))) f g
  Used new_jar now session_id f (g, err e) =
      ((validate_session_id session_id ≡ err e)
        ⊎ ((seen f now session_id ≡ none)
            × (e ≡ session_limit f.config.max_sessions)
            × (f.config.max_sessions ≤ℤ pos (length (purge expires now f.sessions)))))
      × Same now f g

  module _ (now : Time) (f : Fetcher Jar) (v : Distinct f.sessions) where
    write-Changes :
        (session_id : Bytes) (state : SessionState Jar)
        → Changes now session_id
            (some state)
            f
            (record f { sessions = insert session_id state (purge expires now f.sessions) })
    write-Changes session_id state later j h = rw (
      live-insert expires later session_id j state (purge expires now f.sessions),
      live-purge expires now later f.sessions j v h,
    )

    purge-Same : Same now f (record f { sessions = purge expires now f.sessions })
    purge-Same later j h = live-purge expires now later f.sessions j v h

    -- After the purge a lookup finds what is seen at its time.
    found :
        (session_id : Bytes)
        → lookup session_id (purge expires now f.sessions) ≡ seen f now session_id
    found session_id = lookup-purge expires now f.sessions session_id v

    opened-Used :
        (new_jar : Jar) (session_id : Bytes)
        → Used new_jar now session_id f
            (open_session new_jar now session_id (purge_expired_sessions now f))
    unfolding open_session purge_expired_sessions
    opened-Used new_jar session_id = elim (Option-cases (seen f now session_id)) [
      | inr (state, e) ↦
          let e' : lookup session_id (purge expires now f.sessions) ≡ some state =
            found session_id ∙ e in
          rw (e', open_session) (rw e (refl, write-Changes session_id (refreshed f now state)))
      | inl e ↦
          let e' : lookup session_id (purge expires now f.sessions) ≡ none = found session_id ∙ e in
          elim (Bool-cases
            (leb_ℤ f.config.max_sessions (pos (length (purge expires now f.sessions))))) [
              | inl full ↦
                  rw (e', full, open_session) (rw e (inr (refl, refl, ground arith), purge-Same))
              | inr room ↦
                  rw (e', room, open_session)
                    (rw e (refl, write-Changes session_id (opened f now new_jar)))
            ]
    ]

    -- In a table without duplicates, a session that is seen is used again, with its own jar; under a new identifier a session is
    -- opened with the new jar; either way its deadline moves and no other identifier shows a change.
    -- `session` fails only for an identifier that is refused, or for a new one when there are as many
    -- unexpired sessions as are allowed, and then nothing that is seen changes.
    pub session-Used :
        (new_jar : Jar) (session_id : Bytes)
        → Used new_jar now session_id f (session new_jar now session_id f)
    unfolding session
    session-Used new_jar session_id = elim (Result-cases (validate_session_id session_id)) [
      | inr (x, e) ↦ rw (e, session) (inl e, λ later j h. refl)
      | inl (t, e) ↦ rw (e, session) (opened-Used new_jar session_id)
    ]

    -- What `ClearSession` does.
    abbrev pub Cleared : Bytes → Fetcher Jar × Result Bool → Type 0
    Cleared session_id (g, ok was_there) =
        (was_there ≡ is_some (seen f now session_id)) × Changes now session_id none f g
    Cleared session_id (g, err e) = (validate_session_id session_id ≡ err e) × Same now f g

    -- What is not seen now is not seen later.
    absent_later :
        (later : Time) (session_id : Bytes)
        → now ≤ℤ later
        → seen f now session_id ≡ none
        → seen f later session_id ≡ none
    unfolding live
    absent_later later session_id h e = ground arith

    absent-Changes :
        (session_id : Bytes)
        → seen f now session_id ≡ none
        → Changes now session_id none f (record f { sessions = purge expires now f.sessions })
    absent-Changes session_id e later j h = ground (
      arith,
      live-purge expires now later f.sessions j v h,
      eq_bytes_iff j session_id,
      absent_later later session_id h e,
    )

    -- In a table without duplicates, clearing makes the session disappear, reports whether it was seen,
    -- and changes nothing else that is seen; it fails only for an identifier that is refused, and then
    -- nothing that is seen changes.
    pub clear_session-Cleared :
        (session_id : Bytes) → Cleared session_id (clear_session now session_id f)
    unfolding clear_session remove_session purge_expired_sessions
    clear_session-Cleared session_id = elim (Result-cases (validate_session_id session_id)) [
      | inr (x, e) ↦ rw (e, clear_session) (e, λ later j h. refl)
      | inl (t, e) ↦ elim (Option-cases (seen f now session_id)) [
        | inl s ↦
            let s' : lookup session_id (purge expires now f.sessions) ≡ none =
              found session_id ∙ s in
            rw (e, s', s, clear_session, remove_session) (refl, absent-Changes session_id s)
        | inr (state, s) ↦
            let s' : lookup session_id (purge expires now f.sessions) ≡ some state =
              found session_id ∙ s in
            rw (e, s', s, clear_session, remove_session)
              (
                refl,
                λ later j h. rw (
                  live-delete expires later session_id j (purge expires now f.sessions),
                  live-purge expires now later f.sessions j v h,
                ),
              )
      ]
    ]

    -- In a table without duplicates and for an identifier that is accepted, `SessionInfo` describes what
    -- is seen, and changes nothing that is seen.
    pub session_info-seen :
        (format_time : Time → Bytes) (all_cookies : Jar → AllCookies) (session_id : Bytes)
        → validate_session_id session_id ≡ ok tt
        → ((session_info format_time all_cookies now session_id f).1
            ≡ ok (describe format_time all_cookies session_id (seen f now session_id)))
          × Same now f (session_info format_time all_cookies now session_id f).0
    unfolding session_info purge_expired_sessions
    session_info-seen format_time all_cookies session_id e =
        rw (e, session_info)
          (
            ap (λ o. ok (describe format_time all_cookies session_id o)) (found session_id),
            purge-Same,
          )

    -- In a table without duplicates, `touchSession` of a session that is still there, expired or not, moves its last use and its
    -- deadline; no other identifier shows a change.
    pub touch_session-Changes :
        (session_id : Bytes) (state : SessionState Jar)
        → session_id ≢ []
        → lookup session_id f.sessions ≡ some state
        → Changes now session_id (some (refreshed f now state)) f (touch_session now session_id f)
    unfolding touch_session
    touch_session-Changes session_id state ne e later j h =
        let named : eq_bytes session_id [] ≡ false = ground (arith, eq_bytes_iff session_id []) in
        rw (named, e, touch_session)
          (live-insert expires later session_id j (refreshed f now state) f.sessions)
