-- ===== src/Protocol/Reader.antt =====
-- Reading a payload: lib/pb-protocol/pb-protocol.c, `read_string`, `read_u32` and the loads that
-- the deserialisers make by hand. A reader works on a cursor: the memory from `*pos` to the end of
-- the message's block, and the counter `*len`, which the source keeps apart from it.
use petitboot.Base.{
  ℕ, zero, suc, ◌+◌, ◌-◌, ◌^◌, Bool, not, none, some, List, [], ◌∷◌, ltb, ◌==◌, if◌then◌else◌, u32,
  Bytes, take, drop, length,
}
use petitboot.Talloc.{CStr, Talloc}
use petitboot.Protocol.Words.{ByteOrder, get_be32, get_host32}

pub record Cursor : Type 0 where
  pub mem : Bytes
  pub len : ℕ

abbrev pub cursor : Bytes → ℕ → Cursor
cursor m n = record { mem = m; len = n }

-- `refused` is the error return of the code; `fault` is a load outside the message's block.
pub data Outcome (A : Type 0) : Type 0 where
  done : A → Cursor → Outcome A
  refused : Outcome A
  fault : Outcome A

abbrev pub Reader : Type 0 → Type 0
Reader A = Cursor → Outcome A

infixl 5 ◌>>=◌
unfoldable pub ◌>>=◌ : {A B : Type 0} → Reader A → (A → Reader B) → Reader B
◌>>=◌ m f c = elim (m c) [ done a c' ↦ f a c' | refused ↦ refused | fault ↦ fault ]

unfoldable pub pure : {A : Type 0} → A → Reader A
pure a c = done a c

unfoldable pub fail : {A : Type 0} → Reader A
fail c = refused

-- `pos[0]`, stepped over with `len` left as it is.
unfoldable pub load_byte : Reader ℕ
load_byte c = elim c.mem [ [] ↦ fault | b ∷ rest ↦ done b (cursor rest c.len) ]

-- `len -= k` on an `unsigned int`.
unfoldable pub lower_len : ℕ → Reader (Unit {0})
lower_len k c = done tt (cursor c.mem (u32 (c.len + 2 ^ 32 - k)))

-- `*(bool *)pos`, stepped over with `len` left as it is.
unfoldable pub load_bool : Reader Bool
unfolding ◌>>=◌ load_byte pure
load_bool = do b ← load_byte; pure (not (b == 0))

-- `if (len < k) goto out`
unfoldable pub need : ℕ → Reader (Unit {0})
need k c = if ltb c.len k then refused else done tt c

-- `n` bytes of memory from `pos`, stepped over with `len` left as it is.
unfoldable pub load_bytes : ℕ → Reader Bytes
load_bytes n c =
    if ltb (length c.mem) n then fault else done (take n c.mem) (cursor (drop n c.mem) c.len)

unfoldable pub load_host32 : ByteOrder → Reader ℕ
load_host32 o c = elim (get_host32 o c.mem) [
  | none ↦ fault
  | some (v, rest) ↦ done v (cursor rest c.len)
]

unfoldable pub read_u32 : Reader ℕ
read_u32 c =
    if ltb c.len 4
    then refused
    else elim (get_be32 c.mem) [ none ↦ fault | some (v, rest) ↦ done v (cursor rest (c.len - 4)) ]

-- The end of `read_string`: `str_len` and the bytes behind it are known.
unfoldable pub read_string_body : Talloc → Cursor → ℕ → Bytes → Outcome CStr
read_string_body t c str_len body =
    let read_len = u32 (4 + str_len) in
    let next = cursor (drop read_len c.mem) (c.len - read_len) in
    if ltb c.len read_len
    then refused
    else if str_len == 0
    then done none next
    else elim (t.strndup body str_len) [ none ↦ fault | some s ↦ done (some s) next ]

unfoldable pub read_string : Talloc → Reader CStr
unfolding read_string_body
read_string t c = if ltb c.len 4 then refused else elim (get_be32 c.mem) [
  | none ↦ fault
  | some (str_len, body) ↦ read_string_body t c str_len body
]

-- `for (i = 0; i < n; i++)` over a reader of one item.
unfoldable pub read_n : {A : Type 0} → ℕ → Reader A → Reader (List A)
unfolding ◌>>=◌ pure
read_n zero m = pure []
read_n (suc n) m = do x ← m; xs ← read_n n m; pure (x ∷ xs)

-- A message: its header's `payload_len`, and the memory of its payload.
pub record Message : Type 0 where
  pub action : ℕ
  pub payload_len : ℕ
  pub payload : Bytes

abbrev pub start : Message → Cursor
start m = cursor m.payload m.payload_len
