-- ===== src/Config/Hosts.antt =====
-- The list of allowed hosts of internal/fetch/config.go.
use tls_fetch_mcp.Common.{
  All, All-append, All-weaken, List, [], ap, arith, false, map, refl, true, ℕ, ◌++◌, ◌==◌, ◌∙◌, ◌∷◌,
  ◌≡◌,
}
use tls_fetch_mcp.Text.{Bytes, ascii}
use tls_fetch_mcp.Text.Case.{Unicode, lower_byte, is_ascii, to_lower}
use tls_fetch_mcp.Text.Space.{trim_space, is_space_byte}
use tls_fetch_mcp.Text.Space.Printable.{IsPrintable, IsSpace, trim_space-spaces}
use tls_fetch_mcp.Text.Split.{joined, IsFree, split-joined}
use tls_fetch_mcp.Config.Env.{keep_item, csv_items, split_csv, config_from_env}
use tls_fetch_mcp.Config.{Config}
use tls_fetch_mcp.Errors.{ok, Ensures, Ensures-any, Ensures-bind, Ensures-ok}

-- A byte as it stands in the name of a host: printable ASCII and no comma.
abbrev pub IsHostByte : ℕ → Type 0
IsHostByte c = IsPrintable c × ((c == b',') ≡ false)

-- What stands between two commas: a name, which may be empty, and white space around it.
pub record Item : Type 0 where
  pub left : Bytes
  pub host : Bytes
  pub right : Bytes

abbrev pub IsItem : Item → Type 0
IsItem item = All IsSpace item.left × All IsHostByte item.host × All IsSpace item.right

abbrev pub written : Item → Bytes
written item = item.left ++ (item.host ++ item.right)

-- The names that are not empty, in small letters.
abbrev add_name : Bytes → List Bytes → List Bytes
add_name [] names = names
add_name (c ∷ host) names = map lower_byte (c ∷ host) ∷ names

abbrev pub names_of : List Item → List Bytes
names_of [] = []
names_of (item ∷ items) = add_name item.host (names_of items)

keep_item-lowered :
    (host : Bytes) (names : List Bytes)
    → keep_item (map lower_byte host) names ≡ add_name host names
keep_item-lowered [] names = refl
keep_item-lowered (c ∷ host) names = refl

printable : (item : Item) → IsItem item → All IsPrintable item.host
printable item h = All-weaken IsHostByte IsPrintable item.host (λ c p. p.0) h.1

space_no_comma : (c : ℕ) → IsSpace c → (c == b',') ≡ false
unfolding is_space_byte
space_no_comma c h = ground arith

written-IsFree : (item : Item) → IsItem item → IsFree b',' (written item)
written-IsFree item h =
    let apart = λ (s : Bytes) (r : All IsSpace s).
      All-weaken IsSpace (λ c. (c == b',') ≡ false) s space_no_comma r in
    All-append (λ c. (c == b',') ≡ false) item.left (item.host ++ item.right) (apart item.left h.0)
      (All-append (λ c. (c == b',') ≡ false) item.host item.right
        (All-weaken IsHostByte (λ c. (c == b',') ≡ false) item.host (λ c p. p.1) h.1)
        (apart item.right h.2))

map-written-IsFree : (items : List Item) → All IsItem items → All (IsFree b',') (map written items)
map-written-IsFree [] h = tt
map-written-IsFree (item ∷ items) h = (written-IsFree item h.0, map-written-IsFree items h.1)

printable-ascii : (s : Bytes) → All IsPrintable s → is_ascii s ≡ true
unfolding is_ascii
printable-ascii [] h = refl
printable-ascii (c ∷ s) h = ground (arith, printable-ascii s h.1)

module _ (u : Unicode) where
  to_lower-printable : (s : Bytes) → All IsPrintable s → to_lower u s ≡ map lower_byte s
  unfolding to_lower
  to_lower-printable s h = rw (printable-ascii s h) refl

  csv_items-written :
      (items : List Item) → All IsItem items → csv_items u (map written items) ≡ names_of items
  unfolding csv_items
  csv_items-written [] h = refl
  csv_items-written (item ∷ items) h =
      let lowered : to_lower u (trim_space (written item)) ≡ map lower_byte item.host =
        ap (to_lower u)
          (trim_space-spaces item.left item.host item.right h.0.0 (printable item h.0) h.0.2)
        ∙ to_lower-printable item.host (printable item h.0) in
      ap (λ name. keep_item name (csv_items u (map written items))) lowered
      ∙ keep_item-lowered item.host (csv_items u (map written items))
      ∙ ap (add_name item.host) (csv_items-written items h.1)

  -- The loop finds the names between the commas.
  split_csv-written :
      (item : Item) (items : List Item)
      → All IsItem (item ∷ items)
      → split_csv u (joined b',' (written item) (map written items)) ≡ names_of (item ∷ items)
  unfolding split_csv
  split_csv-written item items h =
      ap (csv_items u)
        (split-joined b',' (written item) (map written items) (map-written-IsFree (item ∷ items) h))
      ∙ csv_items-written (item ∷ items) h

  allowed_hosts-Ensures :
      (getenv : Bytes → Bytes)
      → Ensures
          (λ cfg. cfg.allowed_hosts ≡ split_csv u (getenv (ascii "MCP_TLS_FETCH_ALLOWED_HOSTS")))
          (config_from_env u getenv)
  unfolding config_from_env
  allowed_hosts-Ensures getenv = search (Ensures-bind, Ensures-any, refl, arith) depth 14

  -- Where `ConfigFromEnv` returns a configuration and the variable for the hosts holds items with commas
  -- in between, each a name in printable ASCII, which may be empty, with ASCII white space around it,
  -- the configuration allows the names that are not empty, in small letters and in their order, whatever
  -- the other variables hold.
  pub config_from_env-hosts :
      (getenv : Bytes → Bytes) (cfg : Config) (item : Item) (items : List Item)
      → All IsItem (item ∷ items)
      → getenv (ascii "MCP_TLS_FETCH_ALLOWED_HOSTS")
        ≡ joined b',' (written item) (map written items)
      → config_from_env u getenv ≡ ok cfg
      → cfg.allowed_hosts ≡ names_of (item ∷ items)
  config_from_env-hosts getenv cfg item items h set e =
      Ensures-ok
        (λ cfg. cfg.allowed_hosts ≡ split_csv u (getenv (ascii "MCP_TLS_FETCH_ALLOWED_HOSTS")))
        (allowed_hosts-Ensures getenv) e
      ∙ ap (split_csv u) set
      ∙ split_csv-written item items h
