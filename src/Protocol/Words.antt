-- ===== src/Protocol/Words.antt =====
-- The words of a payload: `__cpu_to_be32`, `__be32_to_cpu`, and words in the host's byte order.
use petitboot.Base.{
  ℕ, ◌+◌, ◌*◌, ◌/◌, ◌%◌, ◌^◌, ◌<◌, ◌≡◌, refl, Option, none, some, List, [], ◌∷◌, ◌++◌, arith, Bytes,
  length,
}

pub data ByteOrder : Type 0 where
  little big : ByteOrder

-- The four bytes of a `uint32_t`, the most significant first.
unfoldable pub put_be32 : ℕ → Bytes
put_be32 n = (n / 2 ^ 24) % 256 ∷ (n / 2 ^ 16) % 256 ∷ (n / 2 ^ 8) % 256 ∷ n % 256 ∷ []

unfoldable pub put_le32 : ℕ → Bytes
put_le32 n = n % 256 ∷ (n / 2 ^ 8) % 256 ∷ (n / 2 ^ 16) % 256 ∷ (n / 2 ^ 24) % 256 ∷ []

unfoldable pub put_host32 : ByteOrder → ℕ → Bytes
unfolding put_le32 put_be32
put_host32 little = put_le32
put_host32 big = put_be32

-- A load of four bytes from memory; none when the block ends before them.
unfoldable pub get_be32 : Bytes → Option (ℕ × Bytes)
get_be32 (a ∷ b ∷ c ∷ d ∷ rest) = some (a * 2 ^ 24 + b * 2 ^ 16 + c * 2 ^ 8 + d, rest)
get_be32 _ = none

unfoldable pub get_le32 : Bytes → Option (ℕ × Bytes)
get_le32 (a ∷ b ∷ c ∷ d ∷ rest) = some (a + b * 2 ^ 8 + c * 2 ^ 16 + d * 2 ^ 24, rest)
get_le32 _ = none

unfoldable pub get_host32 : ByteOrder → Bytes → Option (ℕ × Bytes)
unfolding get_le32 get_be32
get_host32 little = get_le32
get_host32 big = get_be32

pub length-put_be32 : (n : ℕ) → length (put_be32 n) ≡ 4
unfolding put_be32
length-put_be32 n = refl

pub length-put_host32 : (o : ByteOrder) (n : ℕ) → length (put_host32 o n) ≡ 4
unfolding put_host32
length-put_host32 little n = refl
length-put_host32 big n = refl

pub get_be32-put_be32 :
    (n : ℕ) (rest : Bytes) → n < 2 ^ 32 → get_be32 (put_be32 n ++ rest) ≡ some (n, rest)
unfolding put_be32 get_be32
get_be32-put_be32 n rest h = ground arith

pub get_host32-put_host32 :
    (o : ByteOrder) (n : ℕ) (rest : Bytes)
    → n < 2 ^ 32
    → get_host32 o (put_host32 o n ++ rest) ≡ some (n, rest)
unfolding put_host32 get_host32
get_host32-put_host32 little n rest h = ground arith
get_host32-put_host32 big n rest h = ground arith

-- A loop that writes the items of an array one behind the other.
unfoldable pub put_all : {S : Type 0} → (S → Bytes) → List S → Bytes
put_all put [] = []
put_all put (x ∷ xs) = put x ++ put_all put xs
