-- ===== src/Request/Send/Steps.antt =====
-- Do of internal/fetch/fetch.go, where it succeeds, up to its last steps.
use tls_fetch_mcp.Common.{Bool-cases, Option, [], arith, false, inl, inr, none, refl, some, ◌≡◌}
use tls_fetch_mcp.Text.{Bytes, eq_bytes}
use tls_fetch_mcp.Errors.{Result, ok, err, Result-cases}
use tls_fetch_mcp.Clock.{Time}
use tls_fetch_mcp.Fetcher.{Fetcher}
use tls_fetch_mcp.Session.{session, open_session, purge_expired_sessions}
use tls_fetch_mcp.Request.Exchange.{Input, Output, World, Prepared, Received}
use tls_fetch_mcp.Request.Send.{prepare, exchange, finish, send_prepared, in_session, do_fetch}

-- The configuration, the policy and the responses are the same.
abbrev pub SameRules : {Jar : Type 0} → Fetcher Jar → Fetcher Jar → Type 0
SameRules f g = (g.config ≡ f.config) × (g.policy ≡ f.policy) × (g.responses ≡ f.responses)

module _ {Jar : Type 0} where
  open-SameRules :
      (new_jar : Jar) (now : Time) (session_id : Bytes) (f : Fetcher Jar)
      → SameRules f (open_session new_jar now session_id f).0
  unfolding open_session
  open-SameRules new_jar now session_id f = ground arith

  purge-SameRules : (now : Time) (f : Fetcher Jar) → SameRules f (purge_expired_sessions now f)
  unfolding purge_expired_sessions
  purge-SameRules now f = (refl, refl, refl)

  session-SameRules :
      (new_jar : Jar) (now : Time) (session_id : Bytes) (f : Fetcher Jar)
      → SameRules f (session new_jar now session_id f).0
  unfolding session
  session-SameRules new_jar now session_id f = ground (
    arith,
    open-SameRules new_jar now session_id (purge_expired_sessions now f),
    purge-SameRules now f,
  )

module _ {Jar : Type 0} (w : World Jar) (input : Input) where
  -- The session that the request names is in use.
  abbrev pub Joined : Fetcher Jar → Fetcher Jar → Option Jar → Type 0
  Joined f state jar =
      eq_bytes input.session_id [] ≡ false
      → (j : Jar) × (jar ≡ some j)
        × (session w.new_jar w.session_time input.session_id f ≡ (state, ok j))

  -- The last steps of a call that succeeds: what it has received and in which state.
  pub record Ran (f g : Fetcher Jar) (out : Output) : Type 0 where
    pub prepared : Prepared
    pub jar : Option Jar
    pub state : Fetcher Jar
    pub received : Received
    pub joined : Joined f state jar
    pub passed : prepare w f input ≡ ok prepared
    pub same : SameRules f state
    pub exchanged : exchange w state input prepared jar ≡ ok received
    pub finished : finish w state input prepared jar received ≡ some (g, ok out)

  send_prepared-Ran :
      (f state g : Fetcher Jar) (p : Prepared) (jar : Option Jar) (out : Output)
      → prepare w f input ≡ ok p
      → SameRules f state
      → Joined f state jar
      → send_prepared w state input p jar ≡ some (g, ok out)
      → Ran f g out
  unfolding send_prepared
  send_prepared-Ran f state g p jar out e s joined h =
      elim (Result-cases (exchange w state input p jar)) [
        | inr (x, q) ↦ absurd (ground arith)
        | inl (r, q) ↦ record {
          prepared = p;
          jar = jar;
          state = state;
          received = r;
          joined = joined;
          passed = e;
          same = s;
          exchanged = q;
          finished = rw (q, send_prepared) at h;
        }
      ]

  in_session-Ran :
      (f g : Fetcher Jar) (p : Prepared) (opened : Fetcher Jar × Result Jar) (out : Output)
      → prepare w f input ≡ ok p
      → SameRules f opened.0
      → session w.new_jar w.session_time input.session_id f ≡ opened
      → in_session w input p opened ≡ some (g, ok out)
      → Ran f g out
  in_session-Ran f g p (state, err x) out e s q h = absurd (ground arith)
  in_session-Ran f g p (state, ok jar) out e s q h =
      send_prepared-Ran f state g p (some jar) out e s (λ named. (jar, refl, q)) h

  pub do_fetch-Ran :
      (f g : Fetcher Jar) (out : Output) → do_fetch w f input ≡ some (g, ok out) → Ran f g out
  unfolding do_fetch
  do_fetch-Ran f g out h = elim (Result-cases (prepare w f input)) [
    | inr (e, q) ↦ absurd (ground arith)
    | inl (p, q) ↦ elim (Bool-cases (eq_bytes input.session_id [])) [
      | inl anonymous ↦
          send_prepared-Ran f f g p none out q (refl, refl, refl) (λ named. absurd (ground arith))
            (ground arith)
      | inr named ↦
          in_session-Ran f g p (session w.new_jar w.session_time input.session_id f) out q
            (session-SameRules w.new_jar w.session_time input.session_id f) refl (ground arith)
    ]
  ]
