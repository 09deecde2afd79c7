-- ===== src/Text/Fields.antt =====
-- `strings.Fields`, and `strings.Join` with a space.
use tls_fetch_mcp.Common.{
  All, All-append, List, [], ap, append_assoc, inl, inr, refl, suc, sym, zero, ℕ, ℕ-cases, ◌++◌,
  ◌∙◌, ◌∷◌, ◌≡◌, ◌≢◌,
}
use tls_fetch_mcp.Text.{Bytes, ascii}
use tls_fetch_mcp.Text.Space.{leading_space}

-- Puts the word read so far in front, unless it is empty.
abbrev flush : Bytes → List Bytes → List Bytes
flush [] words = words
flush (c ∷ word) words = (c ∷ word) ∷ words

-- The words, from the bytes of the current one; the number counts bytes of the current white-space rune
-- still to drop.
unfoldable pub fields_from : ℕ → Bytes → Bytes → List Bytes
unfolding leading_space
fields_from n word [] = flush word []
fields_from (suc n) word (c ∷ s) = fields_from n word s
fields_from zero word (c ∷ s) = elim (leading_space (c ∷ s)) [
  | zero ↦ fields_from zero (word ++ (c ∷ [])) s
  | suc n ↦ flush word (fields_from n [] s)
]

-- `strings.Fields(s)`.
unfoldable pub fields : Bytes → List Bytes
unfolding fields_from
fields s = fields_from 0 [] s

-- `strings.Join(words, " ")`.
unfoldable pub join_spaced : List Bytes → Bytes
join_spaced [] = []
join_spaced (word ∷ []) = word
join_spaced (word ∷ next ∷ words) = word ++ (ascii " " ++ join_spaced (next ∷ words))

fields_example : fields (ascii "  a bc\n d ") ≡ ascii "a" ∷ ascii "bc" ∷ ascii "d" ∷ []
unfolding fields
fields_example = refl

abbrev pub IsWord : Bytes → Type 0
IsWord word = word ≢ []

flush-AreWords :
    (word : Bytes) (words : List Bytes) → All IsWord words → All IsWord (flush word words)
flush-AreWords [] words h = h
flush-AreWords (c ∷ word) words h = (λ e. cc, h)

-- No word is empty.
pub fields_from-AreWords : (n : ℕ) (word s : Bytes) → All IsWord (fields_from n word s)
unfolding fields_from
fields_from-AreWords n [] [] = tt
fields_from-AreWords n (c ∷ word) [] = (λ e. cc, tt)
fields_from-AreWords (suc n) word (c ∷ s) = fields_from-AreWords n word s
fields_from-AreWords zero word (c ∷ s) = elim (ℕ-cases (leading_space (c ∷ s))) [
  | inl e ↦ rw (e, fields_from) (fields_from-AreWords zero (word ++ (c ∷ [])) s)
  | inr (n, e) ↦
      rw (e, fields_from) (flush-AreWords word (fields_from n [] s) (fields_from-AreWords n [] s))
]

-- Two texts with a space in between, unless one of them is empty.
unfoldable pub glue : Bytes → Bytes → Bytes
glue [] t = t
glue (c ∷ s) [] = c ∷ s
glue (c ∷ s) (d ∷ t) = (c ∷ s) ++ (ascii " " ++ (d ∷ t))

glue-nil : (s : Bytes) → glue s [] ≡ s
unfolding glue
glue-nil [] = refl
glue-nil (c ∷ s) = refl

glue_assoc : (s t u : Bytes) → glue (glue s t) u ≡ glue s (glue t u)
unfolding glue
glue_assoc [] t u = refl
glue_assoc (c ∷ s) [] u = refl
glue_assoc (c ∷ s) (d ∷ t) [] = refl
glue_assoc (c ∷ s) (d ∷ t) (e ∷ u) =
    ap (◌∷◌ c) (append_assoc s (ascii " " ++ (d ∷ t)) (ascii " " ++ (e ∷ u)))

join-cons :
    (word : Bytes) (words : List Bytes)
    → IsWord word
    → All IsWord words
    → join_spaced (word ∷ words) ≡ glue word (join_spaced words)
unfolding glue join_spaced
join-cons [] words h k = absurd (h refl)
join-cons (c ∷ word) [] h k = refl
join-cons (c ∷ word) ([] ∷ words) h k = absurd (k.0 refl)
join-cons (c ∷ word) ((d ∷ next) ∷ []) h k = refl
join-cons (c ∷ word) ((d ∷ next) ∷ then_ ∷ words) h k = refl

-- Joining two lists of words joins the two texts.
pub join-append :
    (words more : List Bytes)
    → All IsWord words
    → All IsWord more
    → join_spaced (words ++ more) ≡ glue (join_spaced words) (join_spaced more)
unfolding glue join_spaced
join-append [] more h k = refl
join-append (word ∷ words) more h k =
    join-cons word (words ++ more) h.0 (All-append IsWord words more h.1 k)
    ∙ ap (glue word) (join-append words more h.1 k)
    ∙ sym (glue_assoc word (join_spaced words) (join_spaced more))
    ∙ ap (λ s. glue s (join_spaced more)) (sym (join-cons word words h.0 h.1))

pub fields-AreWords : (s : Bytes) → All IsWord (fields s)
unfolding fields
fields-AreWords s = fields_from-AreWords 0 [] s
