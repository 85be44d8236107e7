-- ===== src/Schema/Words.antt =====
-- What the inner loops of the tokenizer read (ui/backend/internal/schema/tokenize.go).
use ldapium.Prelude.{
  ℕ, ◌≤◌, ◌<◌, ◌≡◌, refl, false, ◌||◌, some, Option-cases, inl, inr, [], ◌∷◌, ◌++◌, length, arith,
  All,
}
use ldapium.Prelude.Bytes.{Bytes}
use ldapium.Prelude.Eq.{bytes_eq, nat_eq, ◌==◌}
use ldapium.Schema.{is_space, is_punctuation, apostrophe, word, quoted}

-- A byte of a bare word, and of a quoted text.
abbrev pub IsInWord : ℕ → Type 0
IsInWord c = (is_space c || is_punctuation c) ≡ false

abbrev pub IsInQuote : ℕ → Type 0
IsInQuote c = (c == apostrophe) ≡ false

pub word-append : (w s : Bytes) → All IsInWord w → word (w ++ b' ' ∷ s) ≡ (w, b' ' ∷ s)
unfolding word
word-append [] s h = refl
word-append (c ∷ w) s h = ground (arith, h.0, word-append w s h.1)

pub quoted-append : (q s : Bytes) → All IsInQuote q → quoted (q ++ apostrophe ∷ s) ≡ some (q, s)
unfolding quoted
quoted-append [] s h = refl
quoted-append (c ∷ q) s h = rw (h.0, quoted-append q s h.1) refl

-- What a word and a quoted string leave is shorter.
pub word-rest_le : (s : Bytes) → length (word s).1 ≤ length s
unfolding word
word-rest_le [] = omega arith
word-rest_le (c ∷ s) = ground (arith, word-rest_le s)

pub quoted-rest_lt : (s t r : Bytes) → quoted s ≡ some (t, r) → length r < length s
unfolding quoted
quoted-rest_lt [] t r h = cc
quoted-rest_lt (c ∷ s) t r h = elim (Option-cases (quoted s)) [
  | inl e ↦ ground (arith, h, e)
  | inr ((u, v), e) ↦ ground (arith, h, e, quoted-rest_lt s u v e)
]
