-- ===== src/Tests/Data.antt =====
-- A talloc of plain copies, and text in double quotes as bytes.
use Prim.Native.String.{String}
use mathlib.Core.Option
use petitboot.CString.{codes}
use petitboot.Base.{
  ℕ, zero, suc, ◌≤◌, ◌<◌, ◌≡◌, refl, true, false, Bool, Option, none, some, [], ◌∷◌, ◌++◌, ◌==◌,
  if◌then◌else◌, arith, Bytes, length,
}
use petitboot.Talloc.{CStr, IsText, Talloc}

-- `len` bytes up to the first 0 among the first `n`; none when the block ends before.
abbrev pub copy : Bytes → ℕ → Option Bytes
copy m zero = some []
copy [] (suc n) = none
copy (c ∷ m) (suc n) = if c == 0 then some [] else Option.map (◌∷◌ c) (copy m n)

pub copy_text : (s rest : Bytes) → IsText s → copy (s ++ rest) (length s) ≡ some s
copy_text [] rest h = refl
copy_text (c ∷ s) rest h = ground (arith, copy_text s rest h.1)

pub copy_within : (m : Bytes) (n : ℕ) → n ≤ length m → (s : Bytes) × (copy m n ≡ some s)
copy_within m zero h = ([], refl)
copy_within [] (suc n) h = absurd (omega arith)
copy_within (c ∷ m) (suc n) h =
    let (s, e) = copy_within m n (omega arith) in (if c == 0 then [] else c ∷ s, ground arith)

pub copy_past : (m : Bytes) (n : ℕ) → IsText m → length m < n → copy m n ≡ none
copy_past m zero v h = absurd (omega arith)
copy_past [] (suc n) v h = refl
copy_past (c ∷ m) (suc n) v h = ground (arith, copy_past m n v.1)

abbrev pub plain : Talloc
plain = record {
  strndup = copy;
  strdup = λ s. s;
  zero_array = λ n. true;
  strndup_text = copy_text;
  strndup_within = copy_within;
  strndup_past = copy_past;
  strdup_copy = λ s. refl;
}

abbrev pub text : String → CStr
text s = some (codes s)

-- A text without a zero byte, by running through it.
abbrev is_text : Bytes → Bool
is_text [] = true
is_text (zero ∷ s) = false
is_text (suc c ∷ s) = is_text s

pub is_text-IsText : (s : Bytes) → is_text s ≡ true → IsText s
is_text-IsText [] h = tt
is_text-IsText (zero ∷ s) h = absurd cc
is_text-IsText (suc c ∷ s) h = (λ e. cc, is_text-IsText s h)
