-- ===== src/Idempotency/Key.antt =====
-- ui/backend/internal/idempotency/key.go: the syntax of an Idempotency-Key header. A rune of the
-- key is read as a byte: no byte of a rune above 127 is allowed, and neither is such a rune.
pub mod Syntax
use ldapium.Prelude.{
  ℕ, ◌≤◌, ◌≡◌, refl, ◌⊎◌, inl, inr, ◌↔◌, Bool, true, false, ◌&&◌, ◌||◌, Option, none, some, List,
  [], ◌∷◌, arith, leb, ltb, if◌then◌else◌, length, all, Bool-cases, ◌≢◌,
}
use ldapium.Prelude.Bytes.{
  Bytes, codes, is_lower, is_upper, is_digit, contains_byte, is_quoted, inner, quote, quote-inner,
  inner-quote, is_quoted-quote,
}

abbrev pub key_min_len : ℕ
key_min_len = 16

abbrev pub key_max_len : ℕ
key_max_len = 128

unfoldable pub allowed_key_rune : ℕ → Bool
unfolding contains_byte
allowed_key_rune r = is_lower r || is_upper r || is_digit r || contains_byte (codes "._~:-") r

-- `len(v) < KeyMinLen || len(v) > KeyMaxLen`, and the search for a rune that is not allowed.
unfoldable pub check_token : Bytes → Option Bytes
unfolding allowed_key_rune all
check_token v =
    if ltb (length v) key_min_len || ltb key_max_len (length v)
    then none
    else if all allowed_key_rune v
    then some v
    else none

abbrev pub unquote : Bytes → Bytes
unquote v = if is_quoted v then inner v else v

-- `none` stands for `errInvalidKey`, the one error that the function returns.
unfoldable pub parse_key : List Bytes → Option Bytes
unfolding check_token is_quoted inner
parse_key [] = none
parse_key (v ∷ []) = check_token (unquote v)
parse_key (v ∷ w ∷ rest) = none
