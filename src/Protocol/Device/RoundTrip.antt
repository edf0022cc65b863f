-- ===== src/Protocol/Device/RoundTrip.antt =====
-- What the receiver makes of a device message.
use petitboot.Base.{ℕ, ◌^◌, ◌<◌, ◌≡◌, ◌≢◌, some, [], ◌++◌, arith, Bytes, length, length-append}
use petitboot.Talloc.{Talloc}
use petitboot.Types.{Device}
use petitboot.Protocol.Words.{ByteOrder, length-put_host32}
use petitboot.Protocol.Reader.{refused}
use petitboot.Protocol.Fields.{IsString, received, written, message_of, value}
use petitboot.Protocol.Codec.{Decodes, seq, last}
use petitboot.Protocol.Codec.Fields.{read_host32-Decodes}
use petitboot.Protocol.Codec.Strings.{length-put_string, read_string-Decodes}
use petitboot.Protocol.Codec.Messages.{finish-written, Decodes-message, Decodes-truncated}
use petitboot.Protocol.Device.{
  device_len, device_bytes, serialise_device, read_device, deserialise_device,
}

-- Every string of the device is a C string or null, and its type is a word.
pub record IsDevice (d : Device) : Type 0 where
  pub id : IsString d.id
  pub type : d.type < 2 ^ 32
  pub name : IsString d.name
  pub description : IsString d.description
  pub icon_file : IsString d.icon_file

unfoldable pub received_device : Device → Device
received_device d = record {
  id = received d.id;
  type = d.type;
  name = received d.name;
  description = received d.description;
  icon_file = received d.icon_file;
}

module _ (t : Talloc) (o : ByteOrder) {d : Device} (h : IsDevice d) where
  read_device-Decodes : Decodes (read_device t o) (device_bytes o d) (received_device d)
  unfolding read_device device_bytes received_device
  read_device-Decodes = seq _ (read_string-Decodes t d.id h.id) (
      seq _ (read_host32-Decodes o d.type h.type) (
        seq _ (read_string-Decodes t d.name h.name) (
          seq _ (read_string-Decodes t d.description h.description)
            (last _ (read_string-Decodes t d.icon_file h.icon_file)))))

pub device_len_lem :
    (o : ByteOrder) (d : Device)
    → length (device_bytes o d) < 2 ^ 32
    → device_len d ≡ length (device_bytes o d)
unfolding device_bytes device_len
device_len_lem o d h = omega (arith, length-append {0}, length-put_string, length-put_host32)

-- A device that the server writes into a buffer of `pb_protocol_device_len` bytes fits, and the
-- client reads the same device from it, with each empty string read as a null pointer. The strings
-- are C strings, the type is a 32-bit number and the message is shorter than 2 ^ 31 bytes.
pub deserialise_device-serialise_device :
    (t : Talloc) (o : ByteOrder) (action : ℕ) {d : Device}
    → IsDevice d
    → length (device_bytes o d) < 2 ^ 31
    → (serialise_device o d (device_len d) ≡ written (device_bytes o d))
      × (value (deserialise_device t o (message_of action (device_bytes o d)))
          ≡ some (received_device d))
unfolding serialise_device deserialise_device
deserialise_device-serialise_device t o action {d} h b = (
  finish-written _ _ (omega (arith, device_len_lem o d (omega arith)))
      (omega (arith, device_len_lem o d (omega arith))),
  Decodes-message _ action (read_device-Decodes t o h) (omega arith),
)

-- A device message that is cut short anywhere is refused, under the same conditions.
deserialise_device-truncated :
    (t : Talloc) (o : ByteOrder) (action : ℕ) {d : Device} (p q : Bytes)
    → IsDevice d
    → length (device_bytes o d) < 2 ^ 32
    → p ++ q ≡ device_bytes o d
    → q ≢ []
    → deserialise_device t o (message_of action p) ≡ refused
unfolding deserialise_device
deserialise_device-truncated t o action p q h b e ne =
    Decodes-truncated _ action p q (read_device-Decodes t o h) e ne b
