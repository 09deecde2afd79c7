-- ===== src/Policy/Mapped.antt =====
-- IPv4 addresses of 4 bytes, and those of 16 bytes that stand for one.
use tls_fetch_mcp.Common.{
  All, All-drop, All-take, [], ap, arith, drop, length, length-drop, length-take, refl, subst, sym,
  take, take-append-drop, ℕ, ◌*◌, ◌++◌, ◌+◌, ◌<◌, ◌==◌, ◌∙◌, ◌∷◌, ◌≡◌,
}
use tls_fetch_mcp.Text.{Bytes, eq_bytes}
use tls_fetch_mcp.Policy.Address.{Ip, mapped_prefix}
use tls_fetch_mcp.Policy.{Policy, validate_ip}
use tls_fetch_mcp.Policy.Number.{
  IsByte, weight, number, number-lt-weight, weight_same, eq_bytes-number, number-append,
}
use tls_fetch_mcp.Policy.Ranges.{
  in_block, value4, verdict4, validate_ip-verdict4, validate_ip-mapped,
}

four_bytes :
    (s : Bytes) → length s ≡ 4 → (a : ℕ) × (b : ℕ) × (c : ℕ) × (d : ℕ) × (s ≡ a ∷ b ∷ c ∷ d ∷ [])
four_bytes (a ∷ b ∷ c ∷ d ∷ []) e = (a, b, c, d, refl)
four_bytes [] e = absurd (omega arith)
four_bytes (a ∷ []) e = absurd (omega arith)
four_bytes (a ∷ b ∷ []) e = absurd (omega arith)
four_bytes (a ∷ b ∷ c ∷ []) e = absurd (omega arith)
four_bytes (a ∷ b ∷ c ∷ d ∷ x ∷ s) e = absurd (omega arith)

number-value4 : (a b c d : ℕ) → number (a ∷ b ∷ c ∷ d ∷ []) ≡ value4 a b c d
unfolding number
number-value4 a b c d = omega arith

pub verdict-four :
    (p : Policy) (s : Bytes) → length s ≡ 4 → All IsByte s → validate_ip p s ≡ verdict4 p (number s)
verdict-four p s n bytes =
    let (a, b, c, d, e) = four_bytes s n in
    let h : All IsByte (a ∷ b ∷ c ∷ d ∷ []) = subst (All IsByte) e bytes in
    rw (e, number-value4 a b c d) (validate_ip-verdict4 a b c d h.0 h.1.0 h.1.1.0 h.1.1.1.0 p)

pub mapped-four :
    (p : Policy) (s : Bytes) → length s ≡ 4 → validate_ip p (mapped_prefix ++ s) ≡ validate_ip p s
mapped-four p s n =
    let (a, b, c, d, e) = four_bytes s n in
    subst (λ t. validate_ip p (mapped_prefix ++ t) ≡ validate_ip p t) (sym e)
      (validate_ip-mapped p a b c d)

-- Sixteen bytes, of which the last four may stand for an IPv4 address.
module _ (ip : Ip) (n : length ip ≡ 16) (bytes : All IsByte ip) where
  weight4 : weight (drop 12 ip) ≡ 0x100000000
  unfolding weight
  weight4 = weight_same (drop 12 ip) (0 ∷ 0 ∷ 0 ∷ 0 ∷ []) (ground (arith, length-drop 12 ip))

  low4 : number (drop 12 ip) < 0x100000000
  low4 =
      subst (λ w. number (drop 12 ip) < w) weight4
        (number-lt-weight (drop 12 ip) (All-drop IsByte 12 ip bytes))

  pub split4 : number ip ≡ number (take 12 ip) * 0x100000000 + number (drop 12 ip)
  split4 =
      sym (ap number (take-append-drop 12 ip))
      ∙ number-append (take 12 ip) (drop 12 ip)
      ∙ ap (λ w. number (take 12 ip) * w + number (drop 12 ip)) weight4

  pub eq_prefix : eq_bytes (take 12 ip) mapped_prefix ≡ (number (take 12 ip) == 0xFFFF)
  unfolding number
  eq_prefix =
      eq_bytes-number (take 12 ip) mapped_prefix (All-take IsByte 12 ip bytes) (omega arith)
        (ground (arith, length-take 12 ip))

  pub mapped_block :
      eq_bytes (take 12 ip) mapped_prefix ≡ in_block 0xFFFF00000000 0x100000000 (number ip)
  mapped_block = ground (arith, eq_prefix, split4, low4)
