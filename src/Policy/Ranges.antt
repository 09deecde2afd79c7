-- ===== src/Policy/Ranges.antt =====
-- The IPv4 addresses that the policy refuses, as blocks of consecutive addresses: an address is read as
-- one number, most significant byte first.
use tls_fetch_mcp.Common.{
  Bool, [], arith, if◌then◌else◌, leb, ltb, not, refl, some, ℕ, ◌&&◌, ◌*◌, ◌++◌, ◌+◌, ◌<◌, ◌==◌,
  ◌||◌, ◌∷◌, ◌≡◌,
}
use tls_fetch_mcp.Errors.{Result, ok, err, always_blocked, private_blocked, not_global}
use tls_fetch_mcp.Policy.Address.{
  mapped_prefix, to4, is_unspecified, is_multicast, is_private, is_loopback, is_link_local_unicast,
  is_global_unicast,
}
use tls_fetch_mcp.Policy.{Policy, validate_ip}

-- The addresses from `base` on, `size` of them.
abbrev pub in_block : ℕ → ℕ → ℕ → Bool
in_block base size n = leb base n && ltb n (base + size)

abbrev pub value4 : ℕ → ℕ → ℕ → ℕ → ℕ
value4 a b c d = ((a * 256 + b) * 256 + c) * 256 + d

-- 0.0.0.0 and 224.0.0.0/4.
abbrev pub always_blocked4 : ℕ → Bool
always_blocked4 n = in_block 0 1 n || in_block 0xE0000000 0x10000000 n

-- 10.0.0.0/8, 127.0.0.0/8, 169.254.0.0/16, 172.16.0.0/12 and 192.168.0.0/16.
abbrev pub private4 : ℕ → Bool
private4 n =
    in_block 0x0A000000 0x1000000 n
    || in_block 0x7F000000 0x1000000 n
    || in_block 0xA9FE0000 0x10000 n
    || in_block 0xAC100000 0x100000 n
    || in_block 0xC0A80000 0x10000 n

-- What the policy says of the IPv4 address with the number `n`.
abbrev pub verdict4 : Policy → ℕ → Result (Unit {0})
verdict4 p n =
    if always_blocked4 n
    then err always_blocked
    else if private4 n
    then (if p.allow_private then ok tt else err private_blocked)
    else if n == 0xFFFFFFFF
    then err not_global
    else ok tt

module _ (a b c d : ℕ) (ha : a < 256) (hb : b < 256) (hc : c < 256) (hd : d < 256) where
  unspecified4 : is_unspecified (a ∷ b ∷ c ∷ d ∷ []) ≡ in_block 0 1 (value4 a b c d)
  unfolding is_unspecified
  unspecified4 = ground arith

  multicast4 : is_multicast (a ∷ b ∷ c ∷ d ∷ []) ≡ in_block 0xE0000000 0x10000000 (value4 a b c d)
  unfolding is_multicast
  multicast4 = ground arith

  loopback4 : is_loopback (a ∷ b ∷ c ∷ d ∷ []) ≡ in_block 0x7F000000 0x1000000 (value4 a b c d)
  unfolding is_loopback
  loopback4 = ground arith

  link_local4 :
      is_link_local_unicast (a ∷ b ∷ c ∷ d ∷ []) ≡ in_block 0xA9FE0000 0x10000 (value4 a b c d)
  unfolding is_link_local_unicast
  link_local4 = ground arith

  private_use4 : is_private (a ∷ b ∷ c ∷ d ∷ []) ≡ (
      in_block 0x0A000000 0x1000000 (value4 a b c d)
      || in_block 0xAC100000 0x100000 (value4 a b c d)
      || in_block 0xC0A80000 0x10000 (value4 a b c d))
  unfolding is_private
  private_use4 = ground arith

  broadcast4 :
      (is_global_unicast (a ∷ b ∷ c ∷ d ∷ [])
        || is_unspecified (a ∷ b ∷ c ∷ d ∷ [])
        || is_loopback (a ∷ b ∷ c ∷ d ∷ [])
        || is_multicast (a ∷ b ∷ c ∷ d ∷ [])
        || is_link_local_unicast (a ∷ b ∷ c ∷ d ∷ []))
      ≡ not (value4 a b c d == 0xFFFFFFFF)
  unfolding is_global_unicast
  broadcast4 = ground arith

  pub validate_ip-verdict4 :
      (p : Policy) → validate_ip p (a ∷ b ∷ c ∷ d ∷ []) ≡ verdict4 p (value4 a b c d)
  unfolding validate_ip
  validate_ip-verdict4 p =
      ground (arith, unspecified4, multicast4, loopback4, link_local4, private_use4, broadcast4)

to4-mapped : (a b c d : ℕ) → to4 (mapped_prefix ++ (a ∷ b ∷ c ∷ d ∷ [])) ≡ some (a ∷ b ∷ c ∷ d ∷ [])
unfolding to4
to4-mapped a b c d = refl

-- An IPv4 address in its 16-byte form gets the answer of its 4-byte form.
pub validate_ip-mapped :
    (p : Policy) (a b c d : ℕ)
    → validate_ip p (mapped_prefix ++ (a ∷ b ∷ c ∷ d ∷ [])) ≡ validate_ip p (a ∷ b ∷ c ∷ d ∷ [])
unfolding validate_ip is_global_unicast is_private
validate_ip-mapped p a b c d = ground arith
