-- ===== src/Policy/Dial.antt =====
-- `dialContext`: the addresses are resolved again and checked one by one, each right before the
-- connection to it is tried.
use tls_fetch_mcp.Common.{
  All, In, List, Option, Option-cases, [], inl, inr, none, refl, some, ◌∷◌, ◌≡◌,
}
use tls_fetch_mcp.Text.{Bytes}
use tls_fetch_mcp.Errors.{
  Error, Result, ok, err, invalid_dial_address, refusing_connection, connect_failed, nil_error,
  Result-cases,
}
use tls_fetch_mcp.Policy.Address.{Ip}
use tls_fetch_mcp.Policy.{Policy, Resolver, resolve, validate_ip}
use tls_fetch_mcp.Policy.Urls.{Passes}

-- `connect` is `dialer.DialContext` at the address and port. The result comes with the addresses to
-- which a connection was tried, in order.
module _ {Conn : Type 0} (p : Policy) (connect : Ip → Bytes → Result Conn) where
  abbrev tried_first : Ip → List Ip × Result Conn → List Ip × Result Conn
  tried_first ip (tried, r) = (ip ∷ tried, r)

  -- The loop over the addresses; the last argument but one is `lastErr`.
  unfoldable pub dial_each : Bytes → Bytes → Error → List Ip → List Ip × Result Conn
  dial_each host port last [] = ([], err (connect_failed host last))
  dial_each host port last (ip ∷ rest) = elim (validate_ip p ip) [
    | err e ↦ ([], err (refusing_connection ip e))
    | ok t ↦ elim (connect ip port) [
      | ok conn ↦ (ip ∷ [], ok conn)
      | err e ↦ tried_first ip (dial_each host port e rest)
    ]
  ]

  -- `split_host_port` is `net.SplitHostPort`; `none` is its error.
  unfoldable pub dial_context :
      Resolver → (Bytes → Option (Bytes × Bytes)) → Bytes → List Ip × Result Conn
  unfolding dial_each
  dial_context r split_host_port address = elim (split_host_port address) [
    | none ↦ ([], err invalid_dial_address)
    | some (host, port) ↦ elim (resolve r host) [
      | err e ↦ ([], err e)
      | ok addresses ↦ dial_each host port nil_error addresses
    ]
  ]

  -- Every address tried passes the policy, and a connection that is returned is one to an address
  -- that was tried.
  abbrev pub Dialled : List Ip × Result Conn → Type 0
  Dialled (tried, ok conn) =
      All (Passes p) tried
      × ((ip : Ip) × (port : Bytes) × In ip tried × (connect ip port ≡ ok conn))
  Dialled (tried, err e) = All (Passes p) tried

  tried_first-Dialled :
      (ip : Ip) (d : List Ip × Result Conn) → Passes p ip → Dialled d → Dialled (tried_first ip d)
  tried_first-Dialled ip (tried, ok conn) h (a, (q, port, m, e)) = ((h, a), (q, port, inr m, e))
  tried_first-Dialled ip (tried, err e) h a = (h, a)

  dial_each-Dialled :
      (host port : Bytes) (last : Error) (l : List Ip) → Dialled (dial_each host port last l)
  unfolding dial_each
  dial_each-Dialled host port last [] = tt
  dial_each-Dialled host port last (ip ∷ rest) = elim (Result-cases (validate_ip p ip)) [
    | inr (e, v) ↦ rw (v, dial_each) tt
    | inl (t, v) ↦ elim (Result-cases (connect ip port)) [
      | inl (conn, c) ↦ rw (v, c, dial_each) ((v, tt), (ip, port, inl refl, c))
      | inr (e, c) ↦
          rw (v, c, dial_each)
            (tried_first-Dialled ip (dial_each host port e rest) v
              (dial_each-Dialled host port e rest))
    ]
  ]

  -- Whatever the host resolves to at the time of the call, a connection is tried only to addresses
  -- that pass the policy, and a connection that is returned is one to an address that was tried.
  pub dial_context-Dialled :
      (r : Resolver) (split_host_port : Bytes → Option (Bytes × Bytes)) (address : Bytes)
      → Dialled (dial_context r split_host_port address)
  unfolding dial_context
  dial_context-Dialled r split_host_port address = elim (Option-cases (split_host_port address)) [
    | inl e ↦ rw (e, dial_context) tt
    | inr ((host, port), e) ↦ elim (Result-cases (resolve r host)) [
      | inl (l, v) ↦ rw (e, v, dial_context) (dial_each-Dialled host port nil_error l)
      | inr (x, v) ↦ rw (e, v, dial_context) tt
    ]
  ]
