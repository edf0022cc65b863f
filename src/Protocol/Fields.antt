-- ===== src/Protocol/Fields.antt =====
-- Single fields of a payload: lib/pb-protocol/pb-protocol.c, `pb_protocol_serialise_string`,
-- `optional_strlen`, `pb_protocol_deserialise_string` and the checks that end each serialiser.
use petitboot.Base.{
  ℕ, ◌+◌, ◌*◌, Bool, Option, none, some, List, [], ◌∷◌, All, ◌++◌, ◌&&◌, is_nonnegative, leb,
  if◌then◌else◌, Bytes, length,
}
use petitboot.Talloc.{CStr, IsText, Talloc}
use petitboot.Protocol.Words.{ByteOrder, put_be32}
use petitboot.Protocol.Reader.{
  Outcome, done, refused, Reader, ◌>>=◌, pure, load_bool, lower_len, need, load_bytes, load_host32,
  read_string, Message, start,
}

unfoldable pub optional_strlen : CStr → ℕ
optional_strlen none = 0
optional_strlen (some s) = length s

unfoldable pub put_string : CStr → Bytes
put_string none = put_be32 0
put_string (some s) = put_be32 (length s) ++ s

-- `*(bool *)pos = b`
unfoldable pub put_bool : Bool → Bytes
put_bool b = (if b then 1 else 0) ∷ []

-- The value of a `bool` that is assigned to a `uint32_t`.
abbrev pub bool_word : Bool → ℕ
bool_word b = if b then 1 else 0

-- What a serialiser leaves in its buffer. `overrun` is a write behind `buf + buf_len`, where the
-- assertion fails; `invalid` is the error return on an unknown message.
pub data Written : Type 0 where
  written : Bytes → Written
  overrun : Written
  invalid : Written

-- `return (pos <= buf + buf_len) ? 0 : -1`, behind the assertion of the same test. `buf_len` is the
-- pattern of an int: a negative one fails the test, since `pos` is not in front of `buf`.
unfoldable pub finish : Bytes → ℕ → Written
finish out buf_len =
    if is_nonnegative buf_len && leb (length out) buf_len then written out else overrun

-- `if (len < sizeof(x)) goto out`, a load in the host's byte order, and `pos` and `len` moved.
unfoldable pub read_host32 : ByteOrder → Reader ℕ
read_host32 o = do _ ← need 4; v ← load_host32 o; _ ← lower_len 4; pure v

-- A `bool` with `pos` and `len` moved.
unfoldable pub read_bool : Reader Bool
read_bool = do b ← load_bool; _ ← lower_len 1; pure b

-- `if (len < n) goto out`, a copy of `n` bytes, and `pos` and `len` moved.
unfoldable pub read_bytes : ℕ → Reader Bytes
read_bytes n = do _ ← need n; s ← load_bytes n; _ ← lower_len n; pure s

-- A string as the other side gets it: an empty one arrives as a null pointer.
unfoldable pub received : CStr → CStr
received none = none
received (some []) = none
received (some (c ∷ s)) = some (c ∷ s)

-- A `char *` that points to a C string, or null.
abbrev pub IsString : CStr → Type 0
IsString none = Unit
IsString (some s) = IsText s

unfoldable pub deserialise_string : Talloc → Message → Outcome CStr
deserialise_string t m = read_string t (start m)

-- The value that a deserialiser hands out.
abbrev pub value : {A : Type 0} → Outcome A → Option A
value (done a c) = some a
value _ = none

abbrev pub max_payload : ℕ
max_payload = 64 * 1024

-- A message whose payload fills its block.
abbrev pub message_of : ℕ → Bytes → Message
message_of a p = record { action = a; payload_len = length p; payload = p }

-- `for (i = 0; i < n; i++) len += 4 + optional_strlen(strings[i])`
unfoldable pub strings_len : List CStr → ℕ
unfolding optional_strlen
strings_len [] = 0
strings_len (s ∷ ss) = 4 + optional_strlen s + strings_len ss

-- A string that is read, and then copied by `talloc_strdup`.
unfoldable pub read_strdup : Talloc → Reader CStr
read_strdup t = do s ← read_string t; pure (t.strdup s)

-- `if (!b) goto out`
unfoldable pub check : Bool → Reader (Unit {0})
check b c = if b then done tt c else refused

-- `if (len < sizeof(bool)) goto out`, and a `bool` with `pos` and `len` moved.
unfoldable pub read_checked_bool : Reader Bool
read_checked_bool = do _ ← need 1; b ← load_bool; _ ← lower_len 1; pure b

abbrev pub AreStrings : List CStr → Type 0
AreStrings = All IsString
