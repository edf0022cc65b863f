-- ===== src/CString.antt =====
-- What the program uses of the C library's string functions, on the bytes of a string.
use Prim.Native.Char.{code}
use Prim.Native.String.{String}
use petitboot.Base.{
  ℕ, ◌+◌, ◌≡◌, refl, Bool, true, false, ◌&&◌, Option, none, some, [], ◌∷◌, ◌++◌, ◌==◌, leb,
  if◌then◌else◌, Bytes, All, arith,
}

-- A text in double quotes as bytes.
abbrev pub codes : String → Bytes
codes String.[] = []
codes (String.◌∷◌ c s) = code c ∷ codes s

-- `!strcmp(a, b)` of two texts.
abbrev pub strcmp_equal : Bytes → Bytes → Bool
strcmp_equal [] [] = true
strcmp_equal [] (b ∷ t) = false
strcmp_equal (a ∷ s) [] = false
strcmp_equal (a ∷ s) (b ∷ t) = if a == b then strcmp_equal s t else false

-- tolower in the C locale.
abbrev pub tolower : ℕ → ℕ
tolower c = if leb 65 c && leb c 90 then c + 32 else c

-- `!strcasecmp(a, b)`
abbrev pub strcasecmp_equal : Bytes → Bytes → Bool
strcasecmp_equal [] [] = true
strcasecmp_equal [] (b ∷ t) = false
strcasecmp_equal (a ∷ s) [] = false
strcasecmp_equal (a ∷ s) (b ∷ t) = if tolower a == tolower b then strcasecmp_equal s t else false

-- `!strncmp(str, prefix, strlen(prefix))`
abbrev pub is_prefix : Bytes → Bytes → Bool
is_prefix str [] = true
is_prefix [] (p ∷ prefix) = false
is_prefix (c ∷ str) (p ∷ prefix) = if c == p then is_prefix str prefix else false

-- `!strncasecmp(str, prefix, strlen(prefix))`, the string first.
abbrev pub is_prefix_ignorecase : Bytes → Bytes → Bool
is_prefix_ignorecase str [] = true
is_prefix_ignorecase [] (p ∷ prefix) = false
is_prefix_ignorecase (c ∷ str) (p ∷ prefix) =
    if tolower c == tolower p then is_prefix_ignorecase str prefix else false

-- strchr or memchr for one byte: what is before it and behind it.
unfoldable pub split_at : ℕ → Bytes → Option (Bytes × Bytes)
split_at c [] = none
split_at c (x ∷ s) =
    if x == c
    then some ([], s)
    else elim (split_at c s) [ none ↦ none | some (before, after) ↦ some (x ∷ before, after) ]

-- A text without the byte.
abbrev pub Lacks : ℕ → Bytes → Type 0
Lacks c s = All (λ x. (x == c) ≡ false) s

pub split_at-append :
    (c : ℕ) (s rest : Bytes) → Lacks c s → split_at c (s ++ c ∷ rest) ≡ some (s, rest)
unfolding split_at
split_at-append c [] rest h = ground arith
split_at-append c (x ∷ s) rest (h, hs) = rw (split_at, h, split_at-append c s rest hs) refl

pub split_at-none : (c : ℕ) (s : Bytes) → Lacks c s → split_at c s ≡ none
unfolding split_at
split_at-none c [] h = refl
split_at-none c (x ∷ s) (h, hs) = rw (split_at, h, split_at-none c s hs) refl

pub strcmp_equal_self : (s : Bytes) → strcmp_equal s s ≡ true
strcmp_equal_self [] = refl
strcmp_equal_self (c ∷ s) = ground (arith, strcmp_equal_self s)

pub strcmp_equal-eq : (s t : Bytes) → strcmp_equal s t ≡ true → s ≡ t
strcmp_equal-eq [] [] e = refl
strcmp_equal-eq [] (b ∷ t) e = absurd cc
strcmp_equal-eq (a ∷ s) [] e = absurd cc
strcmp_equal-eq (a ∷ s) (b ∷ t) e = ground (arith, strcmp_equal-eq s t)

strcasecmp_equal_self : (s : Bytes) → strcasecmp_equal s s ≡ true
strcasecmp_equal_self [] = refl
strcasecmp_equal_self (c ∷ s) = ground (arith, strcasecmp_equal_self s)
