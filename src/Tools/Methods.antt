-- ===== src/Tools/Methods.antt =====
-- The methods that DoGet and WarmupSession of internal/fetch/tools.go let through.
use tls_fetch_mcp.Common.{Bool-cases, [], arith, inl, inr, refl, some, true, ◌≡◌, ◌⊎◌}
use tls_fetch_mcp.Text.{Bytes, ascii, eq_bytes, eq_bytes→eq}
use tls_fetch_mcp.Errors.{err, get_only}
use tls_fetch_mcp.Fetcher.{Fetcher}
use tls_fetch_mcp.Request.Exchange.{Input, World}
use tls_fetch_mcp.Request.Send.{chosen_method, do_fetch}
use tls_fetch_mcp.Tools.{GetInput, get_request, reads_only, do_get}

module _ {Jar : Type 0} (w : World Jar) where
  chosen_get : chosen_method w (ascii "GET") ≡ ascii "GET"
  unfolding chosen_method
  chosen_get = refl

  chosen_head : chosen_method w (ascii "HEAD") ≡ ascii "HEAD"
  unfolding chosen_method
  chosen_head = refl

  -- What passes the check of `DoGet` is still GET or HEAD when `Do` has normalized it again.
  stays : (method : Bytes) → reads_only method ≡ true → chosen_method w method ≡ method
  stays method h = elim (Bool-cases (eq_bytes method (ascii "GET"))) [
    | inl e ↦ let m : method ≡ ascii "GET" = eq_bytes→eq method (ascii "GET") e in rw m chosen_get
    | inr e ↦
        let m : method ≡ ascii "HEAD" = eq_bytes→eq method (ascii "HEAD") (ground arith) in
        rw m chosen_head
  ]

  -- `DoGet` either refuses the method and leaves the state as it was, or is `Do` with no body and a method
  -- that `Do` takes for GET or HEAD.
  pub do_get-reads_only :
      (f : Fetcher Jar) (input : GetInput)
      → (do_get w f input ≡ some (f, err (get_only (chosen_method w input.method))))
        ⊎ ((request : Input) × (do_get w f input ≡ do_fetch w f request)
            × (reads_only (chosen_method w request.method) ≡ true)
            × (request.body ≡ []))
  unfolding do_get
  do_get-reads_only f input = elim (Bool-cases (reads_only (chosen_method w input.method))) [
    | inr other ↦ inl (rw (other, do_get))
    | inl gate ↦ inr (
      get_request input (chosen_method w input.method),
      rw (gate, do_get),
      rw (stays (chosen_method w input.method) gate) gate,
      refl,
    )
  ]
