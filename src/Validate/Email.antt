-- ===== src/Validate/Email.antt =====
-- Which mail addresses are accepted (ui/backend/internal/validate/validate.go).
use ldapium.Prelude.{
  ℕ, ◌≡◌, ◌≢◌, ◌↔◌, refl, ap, sym, subst, Bool, true, Bool-cases, inl, inr, ◌⊎◌, ◌&&◌, [], ◌∷◌,
  ◌++◌, arith, all,
}
use ldapium.Prelude.Bytes.{Bytes}
use ldapium.Prelude.Eq.{bytes_eq, bytes_beq_iff, nat_eq, ◌==◌}
use ldapium.Validate.{fine, is_word, goes_on, word_then, last_word, email_pattern, check_email}

-- A text that is a word, the sign and a text that `Rest` holds of.
pub record Splits (sep : ℕ) (Rest : Bytes → Type 0) (t : Bytes) : Type 0 where
  pub front : Bytes
  pub back : Bytes
  pub nonempty : front ≢ []
  pub is_front : all is_word front ≡ true
  pub joins : t ≡ front ++ sep ∷ back
  pub holds : Rest back

-- The reading of the pattern: a word, an at sign, a word, a dot and a word, where a word has at
-- least one byte and neither white space nor an at sign.
abbrev pub IsWord : Bytes → Type 0
IsWord t = (t ≢ []) × (all is_word t ≡ true)

abbrev pub IsAddress : Bytes → Type 0
IsAddress = Splits b'@' (Splits b'.' IsWord)

goes_on-split :
    (sep : ℕ) (next : Bytes → Bool) (s : Bytes)
    → goes_on sep next s ≡ true
    → (u : Bytes) × (v : Bytes) × (s ≡ u ++ sep ∷ v) × (all is_word u ≡ true) × (next v ≡ true)
unfolding goes_on all
goes_on-split sep next [] h = cc
goes_on-split sep next (c ∷ s) h = elim (Bool-cases ((c == sep) && next s)) [
  | inl e ↦ ([], s, ap (λ (x : ℕ). x ∷ s) (ground (arith, e)), refl, ground (arith, e))
  | inr e ↦
      let (u, v, joins, words, rest) = goes_on-split sep next s (ground (arith, e, h)) in
      (c ∷ u, v, ap (λ (x : Bytes). c ∷ x) joins, ground (arith, e, h, words), rest)
]

goes_on-join :
    (sep : ℕ) (next : Bytes → Bool) (u v : Bytes)
    → all is_word u ≡ true
    → next v ≡ true
    → goes_on sep next (u ++ sep ∷ v) ≡ true
unfolding goes_on all
goes_on-join sep next [] v h k = ground (arith, h, k)
goes_on-join sep next (c ∷ u) v h k = ground (arith, h, k, goes_on-join sep next u v)

word_then_iff :
    (sep : ℕ) (next : Bytes → Bool) (Rest : Bytes → Type 0)
    → ((v : Bytes) → (next v ≡ true) ↔ Rest v)
    → (t : Bytes) → (word_then sep next t ≡ true) ↔ Splits sep Rest t
unfolding word_then all
word_then_iff sep next Rest means t = (apart t, λ x. together t x)
  where
    apart : (t : Bytes) → word_then sep next t ≡ true → Splits sep Rest t
    apart [] h = cc
    apart (c ∷ s) h =
        let (u, v, joins, words, rest) = goes_on-split sep next s (ground (arith, h)) in
        record {
          front = c ∷ u;
          back = v;
          nonempty = λ e. cc e;
          is_front = ground (arith, h, words);
          joins = cc joins;
          holds = (means v).0 rest;
        }

    begins :
        (u v : Bytes)
        → u ≢ []
        → all is_word u ≡ true
        → next v ≡ true
        → word_then sep next (u ++ sep ∷ v) ≡ true
    begins [] v some_ words rest = absurd (some_ refl)
    begins (c ∷ u) v some_ words rest = ground (arith, words, goes_on-join sep next u v)

    together : (t : Bytes) → Splits sep Rest t → word_then sep next t ≡ true
    together t x =
        subst (λ (y : Bytes). word_then sep next y ≡ true) (sym x.joins)
          (begins x.front x.back x.nonempty x.is_front ((means x.back).1 x.holds))

last_word_iff : (t : Bytes) → (last_word t ≡ true) ↔ IsWord t
unfolding last_word
last_word_iff t = (
  λ h. (ground (arith, h, bytes_beq_iff t []), ground (arith, h)),
  λ w. ground (arith, w.0, w.1, bytes_beq_iff t []),
)

-- A mail address is accepted exactly if it is empty, or a word, an at sign, a word, a dot and a
-- word.
pub check_email_iff : (t : Bytes) → (check_email t ≡ fine) ↔ ((t ≡ []) ⊎ IsAddress t)
unfolding check_email email_pattern
check_email_iff t =
    let means =
      word_then_iff b'@' (word_then b'.' last_word) (Splits b'.' IsWord)
        (word_then_iff b'.' last_word IsWord last_word_iff) t in
    (
      λ h. elim (Bool-cases (t == [])) [
        | inl e ↦ inl (ground (arith, e, bytes_beq_iff t []))
        | inr e ↦ inr (means.0 (ground (arith, e, h)))
      ],
      λ w. elim w [ inl e ↦ ground (arith, e) | inr a ↦ ground (arith, means.1 a) ],
    )
