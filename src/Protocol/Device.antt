-- ===== src/Protocol/Device.antt =====
-- Device messages: lib/pb-protocol/pb-protocol.c, `pb_protocol_device_len`,
-- `pb_protocol_serialise_device` and `pb_protocol_deserialise_device`.
pub mod RoundTrip
use petitboot.Base.{ℕ, ◌+◌, ◌++◌, u32, Bytes}
use petitboot.Talloc.{Talloc}
use petitboot.Types.{Device}
use petitboot.Protocol.Words.{ByteOrder, put_host32}
use petitboot.Protocol.Reader.{Reader, Outcome, ◌>>=◌, pure, read_string, Message, start}
use petitboot.Protocol.Fields.{optional_strlen, put_string, Written, finish, read_host32}

unfoldable pub device_len : Device → ℕ
device_len d = u32 (
    4
    + optional_strlen d.id
    + 4
    + (4 + optional_strlen d.name)
    + (4 + optional_strlen d.description)
    + (4 + optional_strlen d.icon_file))

-- The bytes from `buf` to `pos` at the end of the serialiser.
unfoldable pub device_bytes : ByteOrder → Device → Bytes
device_bytes o d =
    put_string d.id
    ++ (put_host32 o d.type
        ++ (put_string d.name ++ (put_string d.description ++ put_string d.icon_file)))

unfoldable pub serialise_device : ByteOrder → Device → ℕ → Written
serialise_device o d buf_len = finish (device_bytes o d) buf_len

unfoldable pub read_device : Talloc → ByteOrder → Reader Device
read_device t o = do
  id ← read_string t
  type ← read_host32 o
  name ← read_string t
  description ← read_string t
  icon_file ← read_string t
  pure (record {
    id = id;
    type = type;
    name = name;
    description = description;
    icon_file = icon_file;
  })

unfoldable pub deserialise_device : Talloc → ByteOrder → Message → Outcome Device
deserialise_device t o m = read_device t o (start m)
