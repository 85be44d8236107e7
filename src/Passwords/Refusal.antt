-- ===== src/Passwords/Refusal.antt =====
-- When an account that is tracked may try again
-- (ui/backend/internal/httpapi/password_limiter.go).
use ldapium.Prelude.{ℕ, leb, if◌then◌else◌}
use ldapium.Prelude.Bytes.{Bytes}
use ldapium.Prelude.Eq.{bytes_eq, text_eq, nat_eq}
use ldapium.Passwords.{Attempts, PasswordLimiter, Reply, admitted, refused, retry_after}
use ldapium.Passwords.Entries.{held}

-- The answer, from the entry after it was pruned.
unfoldable pub answer : ℕ → ℕ → PasswordLimiter → Attempts → Reply
answer now limit l a =
    if leb limit (held a) then refused (retry_after l.window now a.fails) else admitted
