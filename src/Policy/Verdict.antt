-- ===== src/Policy/Verdict.antt =====
-- The policy's answer for an address of 4 or 16 bytes, by the block of consecutive addresses in which
-- its number lies.
use tls_fetch_mcp.Common.{
  All, All-drop, Bool, Bool-cases, [], ap, arith, drop, false, if◌then◌else◌, inl, inr, length,
  length-drop, none, refl, subst, sym, take, take-append-drop, true, ℕ, ◌*◌, ◌++◌, ◌+◌, ◌-◌, ◌<◌,
  ◌==◌, ◌||◌, ◌∙◌, ◌∷◌, ◌≡◌, ◌⊎◌,
}
use tls_fetch_mcp.Text.{Bytes, eq_bytes, eq_bytes→eq}
use tls_fetch_mcp.Errors.{Result, ok, err, always_blocked, private_blocked}
use tls_fetch_mcp.Policy.Address.{
  Ip, mapped_prefix, zeros15, to4, is_unspecified, is_multicast, is_private, is_loopback,
  is_link_local_unicast, is_global_unicast,
}
use tls_fetch_mcp.Policy.{Policy, validate_ip}
use tls_fetch_mcp.Policy.Number.{
  IsByte, weight, number, number-lt-weight, weight_same, eq_bytes-number,
}
use tls_fetch_mcp.Policy.Mapped.{mapped_block, eq_prefix, split4, verdict-four, mapped-four}
use tls_fetch_mcp.Policy.Ranges.{in_block, verdict4}

-- :: and ff00::/8.
abbrev pub always_blocked6 : ℕ → Bool
always_blocked6 n =
    n == 0 || in_block 0xFF000000000000000000000000000000 0x1000000000000000000000000000000 n

-- ::1, fc00::/7 and fe80::/10.
abbrev pub private6 : ℕ → Bool
private6 n =
    n == 1
    || in_block 0xFC000000000000000000000000000000 0x2000000000000000000000000000000 n
    || in_block 0xFE800000000000000000000000000000 0x400000000000000000000000000000 n

-- The addresses ::ffff:0:0/96 stand for IPv4 addresses.
abbrev pub verdict6 : Policy → ℕ → Result (Unit {0})
verdict6 p n =
    if in_block 0xFFFF00000000 0x100000000 n
    then verdict4 p (n - 0xFFFF00000000)
    else if always_blocked6 n
    then err always_blocked
    else if private6 n
    then (if p.allow_private then ok tt else err private_blocked)
    else ok tt

abbrev pub verdict : Policy → Ip → Result (Unit {0})
verdict p ip = if length ip == 4 then verdict4 p (number ip) else verdict6 p (number ip)

-- An IPv4 address in its 16-byte form.
mapped-verdict :
    (p : Policy) (ip : Ip)
    → length ip ≡ 16
    → All IsByte ip
    → eq_bytes (take 12 ip) mapped_prefix ≡ true
    → validate_ip p ip ≡ verdict6 p (number ip)
mapped-verdict p ip n bytes h =
    let four : length (drop 12 ip) ≡ 4 = ground (arith, length-drop 12 ip) in
    let same : ip ≡ mapped_prefix ++ drop 12 ip =
      sym (take-append-drop 12 ip)
      ∙ ap (λ t. t ++ drop 12 ip) (eq_bytes→eq (take 12 ip) mapped_prefix h) in
    let answer : validate_ip p ip ≡ verdict4 p (number (drop 12 ip)) =
      ap (validate_ip p) same
      ∙ mapped-four p (drop 12 ip) four
      ∙ verdict-four p (drop 12 ip) four (All-drop IsByte 12 ip bytes) in
    let inside : in_block 0xFFFF00000000 0x100000000 (number ip) ≡ true =
      sym (mapped_block ip n bytes) ∙ h in
    let rest : number (drop 12 ip) ≡ number ip - 0xFFFF00000000 =
      ground (arith, eq_prefix ip n bytes, split4 ip n bytes) in
    answer ∙ rw (inside, rest) refl

-- An address in neither form of an IPv4 address.
module _ (p : Policy) (a b : ℕ) (s : Bytes) (n : length s ≡ 14) (bytes : All IsByte (a ∷ b ∷ s))
    (plain : to4 (a ∷ b ∷ s) ≡ none) where
  weight14 : weight s ≡ 0x10000000000000000000000000000
  unfolding weight
  weight14 = weight_same s (0 ∷ 0 ∷ 0 ∷ 0 ∷ 0 ∷ 0 ∷ 0 ∷ 0 ∷ 0 ∷ 0 ∷ 0 ∷ 0 ∷ 0 ∷ 0 ∷ []) n

  split :
      number (a ∷ b ∷ s)
      ≡ a * 0x1000000000000000000000000000000 + b * 0x10000000000000000000000000000 + number s
  unfolding number weight
  split = rw weight14 (omega arith)

  low : number s < 0x10000000000000000000000000000
  low = subst (λ w. number s < w) weight14 (number-lt-weight s bytes.1.1)

  multicast6 :
      is_multicast (a ∷ b ∷ s)
      ≡ in_block 0xFF000000000000000000000000000000 0x1000000000000000000000000000000
          (number (a ∷ b ∷ s))
  unfolding is_multicast
  multicast6 = ground (arith, split, low)

  private_use6 :
      is_private (a ∷ b ∷ s)
      ≡ in_block 0xFC000000000000000000000000000000 0x2000000000000000000000000000000
          (number (a ∷ b ∷ s))
  unfolding is_private
  private_use6 = ground (arith, split, low)

  link_local6 :
      is_link_local_unicast (a ∷ b ∷ s)
      ≡ in_block 0xFE800000000000000000000000000000 0x400000000000000000000000000000
          (number (a ∷ b ∷ s))
  unfolding is_link_local_unicast
  link_local6 = ground (arith, split, low)

  eq_zero : eq_bytes (a ∷ b ∷ s) (0 ∷ zeros15) ≡ (number (a ∷ b ∷ s) == 0)
  unfolding number
  eq_zero = eq_bytes-number (a ∷ b ∷ s) (0 ∷ zeros15) bytes (omega arith) (omega arith)

  eq_one : eq_bytes (a ∷ b ∷ s) (zeros15 ++ 1 ∷ []) ≡ (number (a ∷ b ∷ s) == 1)
  unfolding number
  eq_one = eq_bytes-number (a ∷ b ∷ s) (zeros15 ++ 1 ∷ []) bytes (omega arith) (omega arith)

  unspecified6 : is_unspecified (a ∷ b ∷ s) ≡ (number (a ∷ b ∷ s) == 0)
  unfolding is_unspecified
  unspecified6 = ground (arith, eq_zero)

  loopback6 : is_loopback (a ∷ b ∷ s) ≡ (number (a ∷ b ∷ s) == 1)
  unfolding is_loopback
  loopback6 = ground (arith, eq_one)

  global6 :
      (is_global_unicast (a ∷ b ∷ s)
        || is_unspecified (a ∷ b ∷ s)
        || is_loopback (a ∷ b ∷ s)
        || is_multicast (a ∷ b ∷ s)
        || is_link_local_unicast (a ∷ b ∷ s))
      ≡ true
  unfolding is_global_unicast
  global6 = ground arith

  -- Outside ::ffff:0:0/96.
  outside : in_block 0xFFFF00000000 0x100000000 (number (a ∷ b ∷ s)) ≡ false
  unfolding to4
  outside = ground (arith, mapped_block (a ∷ b ∷ s) (omega arith) bytes)

  plain-verdict : validate_ip p (a ∷ b ∷ s) ≡ verdict6 p (number (a ∷ b ∷ s))
  unfolding validate_ip
  plain-verdict =
      ground
        (arith, outside, multicast6, private_use6, link_local6, unspecified6, loopback6, global6)

to4-none : (ip : Ip) → length ip ≡ 16 → eq_bytes (take 12 ip) mapped_prefix ≡ false → to4 ip ≡ none
unfolding to4
to4-none ip n h = ground arith

verdict-sixteen :
    (p : Policy) (ip : Ip)
    → length ip ≡ 16
    → All IsByte ip
    → validate_ip p ip ≡ verdict6 p (number ip)
verdict-sixteen p [] n bytes = absurd (omega arith)
verdict-sixteen p (a ∷ []) n bytes = absurd (omega arith)
verdict-sixteen p (a ∷ b ∷ s) n bytes =
    elim (Bool-cases (eq_bytes (take 12 (a ∷ b ∷ s)) mapped_prefix)) [
      | inl mapped ↦ mapped-verdict p (a ∷ b ∷ s) n bytes mapped
      | inr plain ↦ plain-verdict p a b s (omega arith) bytes (to4-none (a ∷ b ∷ s) n plain)
    ]

-- What the policy answers for an address of 4 or 16 bytes follows from the number that the bytes make.
-- Of the IPv4 addresses, 0.0.0.0 and 224.0.0.0/4 are always refused, 10.0.0.0/8, 127.0.0.0/8,
-- 169.254.0.0/16, 172.16.0.0/12 and 192.168.0.0/16 unless private addresses are allowed, and
-- 255.255.255.255 as not global. An IPv6 address in ::ffff:0:0/96 gets the answer of its last four
-- bytes; of the others, :: and ff00::/8 are always refused, ::1, fc00::/7 and fe80::/10 unless
-- private addresses are allowed. Every other address passes.
pub validate_ip-verdict :
    (p : Policy) (ip : Ip)
    → (length ip ≡ 4) ⊎ (length ip ≡ 16)
    → All IsByte ip
    → validate_ip p ip ≡ verdict p ip
validate_ip-verdict p ip (inl four) bytes = rw four (verdict-four p ip four bytes)
validate_ip-verdict p ip (inr sixteen) bytes = rw sixteen (verdict-sixteen p ip sixteen bytes)
