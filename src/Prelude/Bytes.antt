-- ===== src/Prelude/Bytes.antt =====
-- Go strings where the program looks at their bytes: quoting, slices, byte classes, hex digits.
use Prim.Native.Nat.{ℕ, suc, ◌-◌}
use Prim.Native.Char.{code}
use Prim.Native.String.{String}
use mathlib.Core.Path.{◌≡◌, refl, ap}
use mathlib.Core.Bool.{Bool, true, false, ◌&&◌, ◌||◌}
use mathlib.Core.List.{List, [], ◌∷◌, ◌++◌}
use native.Mathlib.Omega.{arith}
use ldapium.Prelude.Tests.{leb, ◌==◌, or_else}
use ldapium.Prelude.Lists.{length, get_elem?, take, drop, length-append}

abbrev pub Bytes : Type 0
Bytes = List ℕ

-- The code points of a literal: its bytes, since the program's literals are ASCII.
abbrev pub codes : String → Bytes
codes String.[] = []
codes (String.◌∷◌ c s) = code c ∷ codes s

-- s[i], at an index that the code has checked.
abbrev pub byte_at : Bytes → ℕ → ℕ
byte_at s i = or_else 0 (get_elem? s i)

-- s[i:j], at bounds that the code has checked.
abbrev pub slice : ℕ → ℕ → Bytes → Bytes
slice i j s = drop i (take j s)

abbrev pub is_lower : ℕ → Bool
is_lower c = leb b'a' c && leb c b'z'

abbrev pub is_upper : ℕ → Bool
is_upper c = leb b'A' c && leb c b'Z'

abbrev pub is_digit : ℕ → Bool
is_digit c = leb b'0' c && leb c b'9'

-- `strings.ContainsRune`, over the bytes of an ASCII literal.
unfoldable pub contains_byte : Bytes → ℕ → Bool
contains_byte [] c = false
contains_byte (x ∷ xs) c = x == c || contains_byte xs c

-- len(v) >= 2 && v[0] == '"' && v[len(v)-1] == '"'
unfoldable pub is_quoted : Bytes → Bool
is_quoted v = leb 2 (length v) && byte_at v 0 == b'"' && byte_at v (length v - 1) == b'"'

-- v[1 : len(v)-1]
unfoldable pub inner : Bytes → Bytes
inner v = slice 1 (length v - 1) v

abbrev pub quote : Bytes → Bytes
quote s = b'"' ∷ (s ++ b'"' ∷ [])

split_last :
    (x : ℕ) (xs : Bytes) → take (length xs) (x ∷ xs) ++ byte_at (x ∷ xs) (length xs) ∷ [] ≡ x ∷ xs
split_last x [] = refl
split_last x (y ∷ ys) = ap (λ (l : Bytes). x ∷ l) (split_last y ys)

pub quote-inner : (v : Bytes) → is_quoted v ≡ true → v ≡ quote (inner v)
unfolding is_quoted inner
quote-inner [] h = cc
quote-inner (a ∷ []) h = cc
quote-inner (a ∷ b ∷ v) h =
    let len : suc (suc (length v)) - 1 ≡ suc (length v) = omega arith in
    let ends : (a ≡ b'"') × (byte_at (b ∷ v) (length v) ≡ b'"') = ground (arith, len) in
    rw len (cc (split_last b v, ends.0, ends.1))

take-append : (s t : Bytes) → take (length s) (s ++ t) ≡ s
take-append [] t = refl
take-append (x ∷ s) t = ap (λ (l : Bytes). x ∷ l) (take-append s t)

byte_at-append : (s : Bytes) (c : ℕ) → byte_at (s ++ c ∷ []) (length s) ≡ c
byte_at-append [] c = refl
byte_at-append (x ∷ s) c = byte_at-append s c

pub inner-quote : (s : Bytes) → inner (quote s) ≡ s
unfolding inner
inner-quote s =
    let len : suc (length (s ++ b'"' ∷ [])) - 1 ≡ suc (length s) =
      omega (arith, length-append s (b'"' ∷ [])) in
    rw len (take-append s (b'"' ∷ []))

pub is_quoted-quote : (s : Bytes) → is_quoted (quote s) ≡ true
unfolding is_quoted
is_quoted-quote s =
    let len : suc (length (s ++ b'"' ∷ [])) - 1 ≡ suc (length s) =
      omega (arith, length-append s (b'"' ∷ [])) in
    rw (len, byte_at-append s b'"') (ground (arith, length-append s (b'"' ∷ [])))
