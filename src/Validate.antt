-- ===== src/Validate.antt =====
-- ui/backend/internal/validate/validate.go: the checks of names, mail addresses, passwords and DNs,
-- over bytes. A control character, a white space and a sign of a pattern are one byte of UTF-8, and
-- no byte of a longer character is one.
pub mod Email
pub mod Names
mod Tests
use ldapium.Prelude.{
  ℕ, Bool, true, false, ◌&&◌, ◌||◌, not, List, [], ◌∷◌, ltb, leb, if◌then◌else◌, length, all, any,
}
use ldapium.Prelude.Bytes.{Bytes, is_digit, is_lower, is_upper}
use ldapium.Prelude.Eq.{bytes_eq, nat_eq, ◌==◌}

-- The answers: nil, or the error.
pub data Answer : Type 0 where
  fine malformed_uid malformed_email empty_text too_long has_control no_equals : Answer

unfoldable pub is_alphanumeric : ℕ → Bool
is_alphanumeric c = is_upper c || is_lower c || is_digit c

unfoldable pub is_uid_byte : ℕ → Bool
unfolding is_alphanumeric
is_uid_byte c = is_alphanumeric c || (c == b'.') || (c == b'_') || (c == b'-')

-- ^[A-Za-z0-9][A-Za-z0-9._-]{0,63}$
unfoldable pub uid_pattern : Bytes → Bool
unfolding is_uid_byte is_alphanumeric
uid_pattern [] = false
uid_pattern (c ∷ s) = is_alphanumeric c && (leb (length s) 63 && all is_uid_byte s)

unfoldable pub check_uid : Bytes → Answer
unfolding uid_pattern
check_uid uid = if not (uid_pattern uid) then malformed_uid else fine

abbrev pub is_control : ℕ → Bool
is_control c = ltb c 32 || (c == 127)

unfoldable pub check_cn : Bytes → Answer
check_cn cn =
    if cn == []
    then empty_text
    else if ltb 128 (length cn)
    then too_long
    else if any is_control cn
    then has_control
    else fine

-- [^\s@]
unfoldable pub is_word : ℕ → Bool
is_word c = not ((c == 9) || (c == 10) || (c == 12) || (c == 13) || (c == b' ')) && not (c == b'@')

-- The rest of `[^\s@]+`, then `sep`, then what `next` accepts.
unfoldable pub goes_on : ℕ → (Bytes → Bool) → Bytes → Bool
unfolding is_word
goes_on sep next [] = false
goes_on sep next (c ∷ s) = ((c == sep) && next s) || (is_word c && goes_on sep next s)

-- `[^\s@]+`, then `sep`, then what `next` accepts.
unfoldable pub word_then : ℕ → (Bytes → Bool) → Bytes → Bool
unfolding is_word goes_on
word_then sep next [] = false
word_then sep next (c ∷ s) = is_word c && goes_on sep next s

-- [^\s@]+$
unfoldable pub last_word : Bytes → Bool
unfolding is_word all
last_word s = not (s == []) && all is_word s

-- ^[^\s@]+@[^\s@]+\.[^\s@]+$
unfoldable pub email_pattern : Bytes → Bool
unfolding word_then last_word
email_pattern = word_then b'@' (word_then b'.' last_word)

unfoldable pub check_email : Bytes → Answer
unfolding email_pattern
check_email email =
    if email == [] then fine else if not (email_pattern email) then malformed_email else fine

unfoldable pub check_password : Bytes → Answer
check_password pw = if pw == [] then empty_text else if ltb 1024 (length pw) then too_long else fine

unfoldable pub check_dn : Bytes → Answer
check_dn dn =
    if dn == [] then empty_text else if not (any (λ c. c == b'=') dn) then no_equals else fine
