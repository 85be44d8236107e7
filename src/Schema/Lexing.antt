-- ===== src/Schema/Lexing.antt =====
-- The tokenizer reads every text to its end (ui/backend/internal/schema/tokenize.go).
use ldapium.Prelude.{
  ℕ, zero, suc, ◌+◌, ◌≤◌, ◌≡◌, refl, sym, ap, subst, true, false, ◌||◌, Bool-cases, none, some,
  Option, Option-cases, inl, inr, List, [], ◌∷◌, ◌++◌, length, arith, All, if-both,
}
use ldapium.Prelude.Bytes.{Bytes}
use ldapium.Prelude.Eq.{bytes_eq, nat_eq, ◌==◌}
use ldapium.Schema.{
  is_space, is_punctuation, apostrophe, word, quoted, Result, ok, error, unterminated_quote,
  with_token, tokenize_from, tokenize,
}
use ldapium.Schema.Words.{IsInWord, IsInQuote, word-rest_le, quoted-rest_lt}
use ldapium.Schema.Tokens.{
  tokenize_from-space, tokenize_from-punctuation, tokenize_from-open, tokenize_from-quoted,
  tokenize_from-word,
}

-- Where a bare word has to end.
abbrev pub EndsWord : Bytes → Type 0
EndsWord [] = Unit
EndsWord (c ∷ s) = (is_space c || is_punctuation c) ≡ true

-- The reading of a text whose first byte is byte `i`, by the ways in which a text can begin. A
-- reading is finite, and takes at least one byte at each step.
pub data Lexes : ℕ → Bytes → Result (List Bytes) → Type 0 where
  at_end : (i : ℕ) → Lexes i [] (ok [])
  blank :
      (i c : ℕ) (s : Bytes) (r : Result (List Bytes))
      → is_space c ≡ true
      → Lexes (suc i) s r
      → Lexes i (c ∷ s) r
  mark :
      (i c : ℕ) (s : Bytes) (r : Result (List Bytes))
      → is_punctuation c ≡ true
      → Lexes (suc i) s r
      → Lexes i (c ∷ s) (with_token (c ∷ []) r)
  quotation :
      (i : ℕ) (t s : Bytes) (r : Result (List Bytes))
      → All IsInQuote t
      → Lexes (i + length t + 2) s r
      → Lexes i (apostrophe ∷ (t ++ apostrophe ∷ s)) (with_token t r)
  never_closed :
      (i : ℕ) (s : Bytes)
      → All IsInQuote s
      → Lexes i (apostrophe ∷ s) (error (unterminated_quote i))
  bare_word :
      (i c : ℕ) (w s : Bytes) (r : Result (List Bytes))
      → (c == apostrophe) ≡ false
      → All IsInWord (c ∷ w)
      → EndsWord s
      → Lexes (i + length (c ∷ w)) s r
      → Lexes i (c ∷ (w ++ s)) (with_token (c ∷ w) r)

word-splits :
    (s : Bytes) → (s ≡ (word s).0 ++ (word s).1) × All IsInWord (word s).0 × EndsWord (word s).1
unfolding word
word-splits [] = (refl, tt, tt)
word-splits (c ∷ s) =
    let (joins, inside, ends) = word-splits s in
    if-both (λ (r : Bytes × Bytes). (c ∷ s ≡ r.0 ++ r.1) × All IsInWord r.0 × EndsWord r.1)
      (is_space c || is_punctuation c) _ _ (λ e. (refl, tt, e))
      (λ e. (ap (λ (x : Bytes). c ∷ x) joins, (e, inside), ends))

-- A quoted text and what follows it; or no quote closes it.
abbrev IsQuotation : Bytes → Option (Bytes × Bytes) → Type 0
IsQuotation s none = All IsInQuote s
IsQuotation s (some (t, r)) = (s ≡ t ++ apostrophe ∷ r) × All IsInQuote t

quoted-IsQuotation : (s : Bytes) → IsQuotation s (quoted s)
unfolding quoted
quoted-IsQuotation [] = tt
quoted-IsQuotation (c ∷ s) =
    if-both (IsQuotation (c ∷ s)) (c == apostrophe) _ _
      (λ e. (ap (λ (x : ℕ). x ∷ s) ((nat_eq.decides c apostrophe).0 e), tt))
      (λ e. inside e (quoted s) (quoted-IsQuotation s))
  where
    inside :
        (c == apostrophe) ≡ false
        → (o : Option (Bytes × Bytes)) → IsQuotation s o
        → IsQuotation (c ∷ s) (elim o [ none ↦ none | some (t, r) ↦ some (c ∷ t, r) ])
    inside e none q = (e, q)
    inside e (some (t, r)) q = (ap (λ (x : Bytes). c ∷ x) q.0, (e, q.1))

word-cons :
    (c : ℕ) (s : Bytes)
    → (is_space c || is_punctuation c) ≡ false
    → word (c ∷ s) ≡ (c ∷ (word s).0, (word s).1)
unfolding word
word-cons c s h = rw h refl

module _ (n : ℕ)
    (shorter : (i : ℕ) (s : Bytes) → length s ≤ n → Lexes i s (tokenize_from n i s)) where
  at_quote :
      (i c : ℕ) (s : Bytes)
      → length s ≤ n
      → is_space c ≡ false
      → is_punctuation c ≡ false
      → (c == apostrophe) ≡ true
      → Lexes i (c ∷ s) (tokenize_from (suc n) i (c ∷ s))
  at_quote i c s le h p a =
      let same : c ≡ apostrophe = (nat_eq.decides c apostrophe).0 a in
      elim (Option-cases (quoted s)) [
        | inl q ↦ subst (Lexes i (c ∷ s)) (sym (tokenize_from-open n i c s h p a q)) (
            subst (λ (x : ℕ). Lexes i (x ∷ s) (error (unterminated_quote i))) (sym same)
              (never_closed i s (subst (IsQuotation s) q (quoted-IsQuotation s))))
        | inr ((t, r), q) ↦
            let (joins, inside) = subst (IsQuotation s) q (quoted-IsQuotation s) in
            let rest = tokenize_from n (i + length t + 2) r in
            subst (Lexes i (c ∷ s)) (sym (tokenize_from-quoted n i c s t r h p a q)) (
              subst (λ (x : Bytes). Lexes i x (with_token t rest)) (cc (same, joins))
                (quotation i t r rest inside
                  (shorter (i + length t + 2) r (omega (arith, le, quoted-rest_lt s t r q)))))
      ]

  at_word :
      (i c : ℕ) (s : Bytes)
      → length s ≤ n
      → is_space c ≡ false
      → is_punctuation c ≡ false
      → (c == apostrophe) ≡ false
      → Lexes i (c ∷ s) (tokenize_from (suc n) i (c ∷ s))
  at_word i c s le h p a =
      let inside : (is_space c || is_punctuation c) ≡ false = ground (arith, h, p) in
      let (w, r) = word s in
      let (joins, all_inside, ends) = word-splits s in
      let rest = tokenize_from n (i + length (c ∷ w)) r in
      subst (Lexes i (c ∷ s)) (sym (tokenize_from-word n i c s h p a)) (
        subst
          (λ (x : Bytes × Bytes).
            Lexes i (c ∷ s) (with_token x.0 (tokenize_from n (i + length x.0) x.1)))
          (sym (word-cons c s inside))
          (subst (λ (x : Bytes). Lexes i (c ∷ x) (with_token (c ∷ w) rest)) (sym joins)
            (bare_word i c w r rest a (inside, all_inside) ends
              (shorter (i + length (c ∷ w)) r (omega (arith, le, word-rest_le s))))))

  at_byte : (i c : ℕ) (s : Bytes) → length s ≤ n → Lexes i (c ∷ s) (tokenize_from (suc n) i (c ∷ s))
  at_byte i c s le = elim (Bool-cases (is_space c)) [
    | inl h ↦
        subst (Lexes i (c ∷ s)) (sym (tokenize_from-space n i c s h))
          (blank i c s _ h (shorter (suc i) s le))
    | inr h ↦ elim (Bool-cases (is_punctuation c)) [
      | inl p ↦
          subst (Lexes i (c ∷ s)) (sym (tokenize_from-punctuation n i c s h p))
            (mark i c s _ p (shorter (suc i) s le))
      | inr p ↦ elim (Bool-cases (c == apostrophe)) [
        | inl a ↦ at_quote i c s le h p a
        | inr a ↦ at_word i c s le h p a
      ]
    ]
  ]

-- With as much fuel as the text has bytes, the loop ends with the reading of the whole text.
tokenize_from-Lexes : (n i : ℕ) (s : Bytes) → length s ≤ n → Lexes i s (tokenize_from n i s)
unfolding tokenize_from
tokenize_from-Lexes zero i [] le = at_end i
tokenize_from-Lexes zero i (c ∷ s) le = absurd (omega (arith, le))
tokenize_from-Lexes (suc n) i [] le = at_end i
tokenize_from-Lexes (suc n) i (c ∷ s) le =
    at_byte n (tokenize_from-Lexes n) i c s (omega (arith, le))

-- Every text is read to its end: the loop ends, with the tokens of the whole text, or with the
-- position of an apostrophe that no later one closes. Blanks separate, a mark is a token, a quoted
-- text runs to the next apostrophe and is a token without its quotes, and a bare word starts with
-- anything else and runs up to the next blank or mark, or the end.
pub tokenize-Lexes : (s : Bytes) → Lexes 0 s (tokenize s)
unfolding tokenize
tokenize-Lexes s = tokenize_from-Lexes (length s) 0 s (omega arith)
