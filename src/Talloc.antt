-- ===== src/Talloc.antt =====
-- What the program takes of the talloc library (lib/talloc): copies of strings and of memory.
-- Allocation is taken to succeed, except where the program tests for it.
use petitboot.Base.{ℕ, ◌≤◌, ◌<◌, none, ◌≡◌, ◌≢◌, Bool, Option, some, ◌++◌, Bytes, length, All}

-- The bytes of a C string: none of them is the terminating 0.
abbrev pub IsText : Bytes → Type 0
IsText = All (λ c. c ≢ 0)

-- A `char *`: none for a null pointer.
abbrev pub CStr : Type 0
CStr = Option Bytes

pub record Talloc : Type 0 where
  -- `talloc_strndup(ctx, p, n)` for the memory from `p` to the end of its block; none when it
  -- reads past that end.
  pub strndup : Bytes → ℕ → Option Bytes
  -- `talloc_strdup(ctx, s)`
  pub strdup : CStr → CStr
  -- `talloc_zero_array(ctx, char *, n)` gives memory.
  pub zero_array : ℕ → Bool
  pub strndup_text : (s rest : Bytes) → IsText s → strndup (s ++ rest) (length s) ≡ some s
  pub strndup_within : (m : Bytes) (n : ℕ) → n ≤ length m → (s : Bytes) × (strndup m n ≡ some s)
  pub strdup_copy : (s : CStr) → strdup s ≡ s
  pub strndup_past : (m : Bytes) (n : ℕ) → IsText m → length m < n → strndup m n ≡ none
