-- ===== src/Errors.antt =====
-- The errors that the program's functions return, one constructor for each call of `fmt.Errorf`, and
-- the results of fallible functions. A wrapped error carries what it wraps.
use tls_fetch_mcp.Common.{
  Bool, Option, arith, false, inl, inr, none, refl, some, true, ℕ, ℤ, ◌≡◌, ◌⊎◌,
}
use tls_fetch_mcp.Text.{Bytes}

pub data Error : Type 0 where
  -- internal/fetch/config.go
  must_be_boolean must_be_positive : Bytes → Error
  default_timeout_exceeds_max : Error
  -- internal/fetch/policy.go
  invalid_url bad_scheme url_credentials missing_hostname : Error
  invalid_proxy_url bad_proxy_scheme missing_proxy_hostname : Error
  host_not_allowed resolve_failed no_addresses : Bytes → Error
  always_blocked private_blocked not_global : Error
  host_address proxy_host_address : Bytes → Error → Error
  invalid_dial_address : Error
  refusing_connection : Bytes → Error → Error
  connect_failed : Bytes → Error → Error
  nil_error : Error
  dial_failed : ℕ → Error
  -- internal/fetch/session.go and validateSessionID
  session_id_required session_id_too_long session_id_characters : Error
  session_limit : ℤ → Error
  -- internal/fetch/response_store.go
  response_handle_failed invalid_response_id response_not_found : Error
  bad_offset : ℕ → Error
  bad_max_bytes : ℤ → Error
  search_needs_utf8 query_required bad_query bad_max_matches bad_context_bytes : Error
  -- The requests' limits of internal/fetch/fetch.go
  bad_timeout bad_response_limit : ℤ → Error
  read_failed empty_header_name header_newline : Error
  managed_header : Bytes → Error
  -- `Do` of internal/fetch/fetch.go
  url_required proxy_disabled client_failed new_request_failed request_failed too_many_redirects :
      Error
  unsupported_method unknown_profile : Bytes → Error
  invalid_proxy redirect_refused : Error → Error
  -- internal/fetch/extract.go; a number is the place of a query
  extract_needs_utf8 queries_required too_many_queries bad_max_results : Error
  query_name_required bad_query_name query_selector_required bad_query_selector : ℕ → Error
  query_name_duplicated : ℕ → Bytes → Error
  bad_max_output_bytes : ℤ → Error
  bad_format undetected_format : Error
  unsupported_format unsupported_mode : Bytes → Error
  parse_html_failed render_failed : Error
  attribute_not_allowed resolve_urls_not_allowed attribute_required attribute_too_long : ℕ → Error
  not_url_attribute no_absolute_url bad_mode invalid_css bad_attribute_url : ℕ → Error
  extract_failed : ℕ → Error → Error
  parse_json_failed multiple_json_values : Error
  html_options_in_json invalid_jsonpath encode_value_failed : ℕ → Error
  truncated_json : Error → Error
  output_too_small : ℤ → Error
  -- internal/fetch/tools.go
  method_required : Error
  get_only use_get : Bytes → Error
  -- A Go run-time panic: an index or a slice bound out of range.
  panic : Error

-- A value and an error of which one is nil.
pub data Result {ℓ} (V : Type ℓ) : Type ℓ where
  err : Error → Result V
  ok : V → Result V

infixl 5 ◌>>=◌ ◌>>◌
-- `if err != nil { return err }` between two steps, the second of which reads the value of the first.
abbrev pub ◌>>=◌ {ℓ κ} :
    {V : Type ℓ} {W : Type κ} (first : Result V) (next : V → Result W) → Result W
err failure >>= next = err failure
ok value >>= next = next value

-- The same where the first step returns only an error.
abbrev pub ◌>>◌ {ℓ} : {W : Type ℓ} (check : Result (Unit {0})) (next : Result W) → Result W
err failure >> next = err failure
ok _ >> next = next

-- Returns the error if the test holds.
abbrev pub fail_if : Bool → Error → Result (Unit {0})
fail_if true e = err e
fail_if false e = ok tt

-- `fmt.Errorf("…: %w", err)`.
abbrev pub wrap {ℓ} : {A : Type ℓ} → (Error → Error) → Result A → Result A
wrap f (ok a) = ok a
wrap f (err e) = err (f e)

abbrev pub or_fail {ℓ} : {A : Type ℓ} → Option A → Error → Result A
or_fail none e = err e
or_fail (some a) e = ok a

pub Result-cases {ℓ} :
    {V : Type ℓ} (r : Result V)
    → ((value : V) × (r ≡ ok value)) ⊎ ((failure : Error) × (r ≡ err failure))
Result-cases (err failure) = inr (failure, refl)
Result-cases (ok value) = inl (value, refl)

-- A result, if there is one, satisfies the predicate.
abbrev pub Ensures {ℓ κ} : {A : Type ℓ} → (A → Type κ) → Result A → Type κ
Ensures P (ok a) = P a
Ensures P (err e) = Unit

-- The rest of a `do` block may use what its first step ensures.
pub Ensures-bind {ℓ κ} :
    {A B : Type ℓ} (P : A → Type κ) (Q : B → Type κ) (m : Result A) (f : A → Result B)
    → Ensures P m
    → ((a : A) → P a → Ensures Q (f a))
    → Ensures Q (m >>= f)
Ensures-bind P Q (ok a) f h k = k a h
Ensures-bind P Q (err e) f h k = tt

pub Ensures-any {ℓ} : {A : Type ℓ} (m : Result A) → Ensures (λ a. Unit {0}) m
Ensures-any (ok a) = tt
Ensures-any (err e) = tt

pub Ensures-ok {ℓ κ} :
    {A : Type ℓ} (P : A → Type κ) {m : Result A} {a : A} → Ensures P m → m ≡ ok a → P a
Ensures-ok P h e = rw e at h

abbrev pub is_panic : Error → Bool
is_panic panic = true
is_panic e = false

-- The result is not a panic.
abbrev pub Calm {ℓ} : {A : Type ℓ} → Result A → Type 0
Calm (ok a) = Unit
Calm (err e) = is_panic e ≡ false

pub Calm-bind {ℓ κ} :
    {A : Type ℓ} {B : Type κ} (m : Result A) (f : A → Result B)
    → Calm m
    → ((a : A) → Calm (f a))
    → Calm (m >>= f)
Calm-bind (ok a) f h k = k a
Calm-bind (err e) f h k = h

pub Calm-then {ℓ} :
    {B : Type ℓ} (m : Result (Unit {0})) (r : Result B) → Calm m → Calm r → Calm (m >> r)
Calm-then (ok a) r h k = k
Calm-then (err e) r h k = h

-- The same where the rest relies on the check.
pub Calm-check {ℓ} :
    {B : Type ℓ} (m : Result (Unit {0})) (r : Result B)
    → Calm m
    → (m ≡ ok tt → Calm r)
    → Calm (m >> r)
Calm-check (ok a) r h k = k refl
Calm-check (err e) r h k = h

pub Calm-fail_if : (b : Bool) (e : Error) → is_panic e ≡ false → Calm (fail_if b e)
Calm-fail_if true e h = h
Calm-fail_if false e h = tt

pub Calm-wrap {ℓ} :
    {A : Type ℓ} (f : Error → Error) (r : Result A)
    → ((e : Error) → is_panic (f e) ≡ false)
    → Calm (wrap f r)
Calm-wrap f (ok a) h = tt
Calm-wrap f (err e) h = h e

pub Calm-or_fail {ℓ} :
    {A : Type ℓ} (o : Option A) (e : Error) → is_panic e ≡ false → Calm (or_fail o e)
Calm-or_fail none e h = h
Calm-or_fail (some a) e h = tt

pub Calm-err {ℓ} : {A : Type ℓ} (r : Result A) (e : Error) → Calm r → r ≡ err e → is_panic e ≡ false
Calm-err (ok a) e h q = cc
Calm-err (err x) e h q = ground arith
