-- ===== src/Schema/Tokens.antt =====
-- The turns of the tokenizer's loop (ui/backend/internal/schema/tokenize.go).
use ldapium.Prelude.{ℕ, suc, ◌+◌, ◌≡◌, refl, true, false, none, some, [], ◌∷◌, length}
use ldapium.Prelude.Bytes.{Bytes}
use ldapium.Prelude.Eq.{bytes_eq, nat_eq, ◌==◌}
use ldapium.Schema.{
  is_space, is_punctuation, apostrophe, word, quoted, error, unterminated_quote, with_token,
  tokenize_from,
}

-- One turn of the loop, by the kind of the byte.
pub tokenize_from-space :
    (n i c : ℕ) (s : Bytes)
    → is_space c ≡ true
    → tokenize_from (suc n) i (c ∷ s) ≡ tokenize_from n (suc i) s
unfolding tokenize_from
tokenize_from-space n i c s h = rw (h, tokenize_from) refl

pub tokenize_from-punctuation :
    (n i c : ℕ) (s : Bytes)
    → is_space c ≡ false
    → is_punctuation c ≡ true
    → tokenize_from (suc n) i (c ∷ s) ≡ with_token (c ∷ []) (tokenize_from n (suc i) s)
unfolding tokenize_from
tokenize_from-punctuation n i c s h p = rw (h, p, tokenize_from) refl

pub tokenize_from-open :
    (n i c : ℕ) (s : Bytes)
    → is_space c ≡ false
    → is_punctuation c ≡ false
    → (c == apostrophe) ≡ true
    → quoted s ≡ none
    → tokenize_from (suc n) i (c ∷ s) ≡ error (unterminated_quote i)
unfolding tokenize_from
tokenize_from-open n i c s h p a q = rw (h, p, a, q, tokenize_from) refl

pub tokenize_from-quoted :
    (n i c : ℕ) (s t r : Bytes)
    → is_space c ≡ false
    → is_punctuation c ≡ false
    → (c == apostrophe) ≡ true
    → quoted s ≡ some (t, r)
    → tokenize_from (suc n) i (c ∷ s) ≡ with_token t (tokenize_from n (i + length t + 2) r)
unfolding tokenize_from
tokenize_from-quoted n i c s t r h p a q = rw (h, p, a, q, tokenize_from) refl

pub tokenize_from-word :
    (n i c : ℕ) (s : Bytes)
    → is_space c ≡ false
    → is_punctuation c ≡ false
    → (c == apostrophe) ≡ false
    → tokenize_from (suc n) i (c ∷ s)
      ≡ with_token (word (c ∷ s)).0 (tokenize_from n (i + length (word (c ∷ s)).0) (word (c ∷ s)).1)
unfolding tokenize_from
tokenize_from-word n i c s h p a = rw (h, p, a, tokenize_from) refl
