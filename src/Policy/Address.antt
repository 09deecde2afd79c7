-- ===== src/Policy/Address.antt =====
-- Package `net`: an address is a slice of 4 or 16 bytes, and these are its classes.
use tls_fetch_mcp.Common.{
  Bool, Option, [], drop, false, if◌then◌else◌, length, none, not, some, suc, take, zero, ℕ, ◌&&◌,
  ◌++◌, ◌/◌, ◌==◌, ◌||◌, ◌∷◌,
}
use tls_fetch_mcp.Text.{Bytes, eq_bytes}

abbrev pub Ip : Type 0
Ip = Bytes

-- The first twelve bytes of an IPv4 address in its 16-byte form.
abbrev pub mapped_prefix : Bytes
mapped_prefix = 0 ∷ 0 ∷ 0 ∷ 0 ∷ 0 ∷ 0 ∷ 0 ∷ 0 ∷ 0 ∷ 0 ∷ 0xFF ∷ 0xFF ∷ []

abbrev pub zeros15 : Bytes
zeros15 = 0 ∷ 0 ∷ 0 ∷ 0 ∷ 0 ∷ 0 ∷ 0 ∷ 0 ∷ 0 ∷ 0 ∷ 0 ∷ 0 ∷ 0 ∷ 0 ∷ 0 ∷ []

-- `ip.To4()`; `none` is nil.
unfoldable pub to4 : Ip → Option Ip
unfolding eq_bytes
to4 ip =
    if length ip == 4
    then some ip
    else if length ip == 16 && eq_bytes (take 12 ip) mapped_prefix
    then some (drop 12 ip)
    else none

-- `ip[i]`, for an index in range.
abbrev byte_at : Ip → ℕ → ℕ
byte_at [] i = 0
byte_at (a ∷ ip) zero = a
byte_at (a ∷ ip) (suc i) = byte_at ip i

-- A test on the 4-byte form, or else on the address itself.
abbrev by_form : Ip → (Ip → Bool) → (Ip → Bool) → Bool
by_form ip four six = elim (to4 ip) [ some q ↦ four q | none ↦ length ip == 16 && six ip ]

-- `ip.Equal(IPv4(a, b, c, d))`.
abbrev equals4 : Ip → Bytes → Bool
equals4 ip quad = by_form ip (λ q. eq_bytes q quad) (λ _. false)

-- `ip.Equal` of an address that has no 4-byte form.
abbrev equals6 : Ip → Bytes → Bool
equals6 ip other = eq_bytes ip other

unfoldable pub is_unspecified : Ip → Bool
unfolding to4
is_unspecified ip = equals4 ip (0 ∷ 0 ∷ 0 ∷ 0 ∷ []) || equals6 ip (0 ∷ zeros15)

unfoldable pub is_loopback : Ip → Bool
unfolding to4
is_loopback ip = by_form ip (λ q. byte_at q 0 == 127) (λ s. equals6 s (zeros15 ++ 1 ∷ []))

-- 10.0.0.0/8, 172.16.0.0/12, 192.168.0.0/16 and fc00::/7. `x & 0xf0` is read off by a division.
unfoldable pub is_private : Ip → Bool
unfolding to4
is_private ip =
    by_form ip
      (λ q.
        byte_at q 0 == 10
        || byte_at q 0 == 172 && byte_at q 1 / 16 == 1
        || byte_at q 0 == 192 && byte_at q 1 == 168)
      (λ s. byte_at s 0 / 2 == 126)

-- 224.0.0.0/4 and ff00::/8.
unfoldable pub is_multicast : Ip → Bool
unfolding to4
is_multicast ip = by_form ip (λ q. byte_at q 0 / 16 == 14) (λ s. byte_at s 0 == 0xFF)

-- 169.254.0.0/16 and fe80::/10.
unfoldable pub is_link_local_unicast : Ip → Bool
unfolding to4
is_link_local_unicast ip =
    by_form ip (λ q. byte_at q 0 == 169 && byte_at q 1 == 254)
      (λ s. byte_at s 0 == 0xFE && byte_at s 1 / 64 == 2)

unfoldable pub is_global_unicast : Ip → Bool
unfolding to4 is_unspecified is_loopback is_multicast is_link_local_unicast
is_global_unicast ip =
    (length ip == 4 || length ip == 16)
    && not (equals4 ip (255 ∷ 255 ∷ 255 ∷ 255 ∷ []))
    && not (is_unspecified ip)
    && not (is_loopback ip)
    && not (is_multicast ip)
    && not (is_link_local_unicast ip)
