-- ===== src/Schema/Writing.antt =====
-- Written tokens are read back (ui/backend/internal/schema/tokenize.go).
use ldapium.Prelude.{
  ℕ, zero, suc, ◌+◌, ◌≤◌, ◌≡◌, refl, ap, ◌∙◌, true, false, List, [], ◌∷◌, ◌++◌, map, length,
  length-append, arith, All,
}
use ldapium.Prelude.Bytes.{Bytes}
use ldapium.Prelude.Eq.{bytes_eq, nat_eq}
use ldapium.Schema.{is_space, is_punctuation, apostrophe, ok, with_token, tokenize_from, tokenize}
use ldapium.Schema.Words.{IsInWord, IsInQuote, word-append, quoted-append}
use ldapium.Schema.Tokens.{
  tokenize_from-space, tokenize_from-punctuation, tokenize_from-quoted, tokenize_from-word,
}

-- A token as it is written: a bare word, a quoted text, or one of the three marks.
pub data Piece : Type 0 where
  bare : ℕ → Bytes → Piece
  in_quotes : Bytes → Piece
  opening closing separator : Piece

abbrev pub text_of : Piece → Bytes
text_of (bare c w) = c ∷ w
text_of (in_quotes q) = q
text_of opening = b'(' ∷ []
text_of closing = b')' ∷ []
text_of separator = b'$' ∷ []

-- The piece and a space, before what follows.
abbrev pub write_before : Piece → Bytes → Bytes
write_before (bare c w) s = c ∷ (w ++ b' ' ∷ s)
write_before (in_quotes q) s = apostrophe ∷ (q ++ apostrophe ∷ b' ' ∷ s)
write_before opening s = b'(' ∷ b' ' ∷ s
write_before closing s = b')' ∷ b' ' ∷ s
write_before separator s = b'$' ∷ b' ' ∷ s

-- A bare word has no space, mark or leading quote; a quoted text has no quote.
abbrev pub IsWritable : Piece → Type 0
IsWritable (bare c w) = IsInQuote c × IsInWord c × All IsInWord w
IsWritable (in_quotes q) = All IsInQuote q
IsWritable opening = Unit
IsWritable closing = Unit
IsWritable separator = Unit

unfoldable pub write : List Piece → Bytes
write [] = []
write (p ∷ ps) = write_before p (write ps)

-- The rest reads as the tokens, from whatever position and with whatever fuel that is enough.
abbrev ReadsAs : Bytes → List Bytes → Type 0
ReadsAs s ts = (n i : ℕ) → length s ≤ n → tokenize_from n i s ≡ ok ts

ReadsAs-nil : ReadsAs [] []
unfolding tokenize_from
ReadsAs-nil zero i k = refl
ReadsAs-nil (suc n) i k = refl

ReadsAs-space : (s : Bytes) (ts : List Bytes) → ReadsAs s ts → ReadsAs (b' ' ∷ s) ts
ReadsAs-space s ts h zero i k = ground (arith, k)
ReadsAs-space s ts h (suc n) i k =
    tokenize_from-space n i b' ' s refl ∙ h n (suc i) (omega (arith, k))

ReadsAs-mark :
    (c : ℕ) (s : Bytes) (ts : List Bytes)
    → is_space c ≡ false
    → is_punctuation c ≡ true
    → ReadsAs s ts
    → ReadsAs (c ∷ b' ' ∷ s) ((c ∷ []) ∷ ts)
ReadsAs-mark c s ts e p h zero i k = ground (arith, k)
ReadsAs-mark c s ts e p h (suc n) i k =
    tokenize_from-punctuation n i c (b' ' ∷ s) e p
    ∙ ap (with_token (c ∷ [])) (ReadsAs-space s ts h n (suc i) (omega (arith, k)))

ReadsAs-quotes :
    (q s : Bytes) (ts : List Bytes)
    → All IsInQuote q
    → ReadsAs s ts
    → ReadsAs (apostrophe ∷ (q ++ apostrophe ∷ b' ' ∷ s)) (q ∷ ts)
ReadsAs-quotes q s ts a h zero i k = ground (arith, k)
ReadsAs-quotes q s ts a h (suc n) i k =
    tokenize_from-quoted n i apostrophe (q ++ apostrophe ∷ b' ' ∷ s) q (b' ' ∷ s) refl refl refl
      (quoted-append q (b' ' ∷ s) a)
    ∙ ap (with_token q) (
        ReadsAs-space s ts h n (i + length q + 2)
          (omega (arith, k, length-append q (apostrophe ∷ b' ' ∷ s))))

ReadsAs-word :
    (c : ℕ) (w s : Bytes) (ts : List Bytes)
    → IsWritable (bare c w)
    → ReadsAs s ts
    → ReadsAs (c ∷ (w ++ b' ' ∷ s)) ((c ∷ w) ∷ ts)
ReadsAs-word c w s ts a h zero i k = ground (arith, k)
ReadsAs-word c w s ts (a, b, d) h (suc n) i k =
    tokenize_from-word n i c (w ++ b' ' ∷ s) (ground (arith, b)) (ground (arith, b)) a
    ∙ ap (λ (r : Bytes × Bytes). with_token r.0 (tokenize_from n (i + length r.0) r.1))
        (word-append (c ∷ w) s (b, d))
    ∙ ap (with_token (c ∷ w))
        (ReadsAs-space s ts h n (i + length (c ∷ w)) (omega (arith, k, length-append w (b' ' ∷ s))))

ReadsAs-write : (ps : List Piece) → All IsWritable ps → ReadsAs (write ps) (map text_of ps)
unfolding write
ReadsAs-write [] a = ReadsAs-nil
ReadsAs-write (bare c w ∷ ps) a =
    ReadsAs-word c w (write ps) (map text_of ps) a.0 (ReadsAs-write ps a.1)
ReadsAs-write (in_quotes q ∷ ps) a =
    ReadsAs-quotes q (write ps) (map text_of ps) a.0 (ReadsAs-write ps a.1)
ReadsAs-write (opening ∷ ps) a =
    ReadsAs-mark b'(' (write ps) (map text_of ps) refl refl (ReadsAs-write ps a.1)
ReadsAs-write (closing ∷ ps) a =
    ReadsAs-mark b')' (write ps) (map text_of ps) refl refl (ReadsAs-write ps a.1)
ReadsAs-write (separator ∷ ps) a =
    ReadsAs-mark b'$' (write ps) (map text_of ps) refl refl (ReadsAs-write ps a.1)

-- Bare words, quoted texts and marks, each written with a space after it, are read back as their
-- texts: a bare word without spaces, marks or a leading quote, a quoted text without quotes, the
-- empty one and one with spaces or marks included.
pub tokenize-write :
    (ps : List Piece) → All IsWritable ps → tokenize (write ps) ≡ ok (map text_of ps)
unfolding tokenize
tokenize-write ps a = ReadsAs-write ps a (length (write ps)) 0 (omega arith)
