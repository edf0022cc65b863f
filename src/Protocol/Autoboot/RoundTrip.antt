-- ===== src/Protocol/Autoboot/RoundTrip.antt =====
-- What the receiver makes of an autoboot option, and the space for it.
use petitboot.Types.{AutobootOption, by_type, by_uuid, boot_device_type, boot_device_uuid}
use petitboot.Protocol.Autoboot.{
  temp_autoboot_len, autoboot_bytes, serialise_temp_autoboot, read_temp_autoboot,
  deserialise_temp_autoboot, read_autoboot_opt, autoboot_opt_len,
}
use petitboot.Base.{
  ℕ, ◌^◌, ◌<◌, ◌≤◌, ◌≡◌, ◌≢◌, ◌==◌, false, some, [], ◌++◌, arith, Bytes, length, length-append,
}
use petitboot.Talloc.{Talloc}
use petitboot.Protocol.Words.{length-put_be32}
use petitboot.Protocol.Reader.{refused}
use petitboot.Protocol.Fields.{IsString, received, written, overrun, finish, message_of, value}
use petitboot.Protocol.Codec.{Decodes, seq, last}
use petitboot.Protocol.Codec.Fields.{read_u32-Decodes}
use petitboot.Protocol.Codec.Strings.{length-put_string, read_string-Decodes}
use petitboot.Protocol.Codec.Messages.{finish-written, Decodes-message, Decodes-truncated}

-- The members of the union that its tag selects; the tag is a word, and `by_uuid` has no tag
-- BOOT_DEVICE_TYPE.
abbrev pub IsAutobootOption : AutobootOption → Type 0
IsAutobootOption (by_type k) = k < 2 ^ 32
IsAutobootOption (by_uuid b u) = (b < 2 ^ 32) × (b ≢ boot_device_type) × IsString u

-- One of the two tags that the enum names.
abbrev pub IsKnown : AutobootOption → Type 0
IsKnown (by_type k) = Unit
IsKnown (by_uuid b u) = b ≡ boot_device_uuid

unfoldable pub received_autoboot : AutobootOption → AutobootOption
received_autoboot (by_type k) = by_type k
received_autoboot (by_uuid b u) = by_uuid b (received u)

pub length-autoboot_bytes : (a : AutobootOption) → length (autoboot_bytes a) ≡ autoboot_opt_len a
unfolding autoboot_bytes autoboot_opt_len
length-autoboot_bytes (by_type k) = omega (arith, length-append {0}, length-put_be32)
length-autoboot_bytes (by_uuid b u) =
    omega (arith, length-append {0}, length-put_be32, length-put_string)

pub autoboot_opt_len-pos : (a : AutobootOption) → 1 ≤ autoboot_opt_len a
unfolding autoboot_opt_len
autoboot_opt_len-pos (by_type k) = omega arith
autoboot_opt_len-pos (by_uuid b u) = omega arith

module _ (t : Talloc) where
  pub read_autoboot_opt-Decodes :
      (a : AutobootOption)
      → IsAutobootOption a
      → Decodes (read_autoboot_opt t) (autoboot_bytes a) (received_autoboot a)
  unfolding read_autoboot_opt autoboot_bytes received_autoboot
  read_autoboot_opt-Decodes (by_type k) h =
      seq _ (read_u32-Decodes boot_device_type (omega arith)) (last by_type (read_u32-Decodes k h))
  read_autoboot_opt-Decodes (by_uuid b u) h =
      let z : (b == boot_device_type) ≡ false = ground arith in
      seq _ (read_u32-Decodes b h.0) (rw z (last (by_uuid b) (read_string-Decodes t u h.2)))

  read_temp_autoboot-Decodes :
      (a : AutobootOption)
      → IsAutobootOption a
      → IsKnown a
      → Decodes (read_temp_autoboot t) (autoboot_bytes a) (received_autoboot a)
  unfolding read_temp_autoboot autoboot_bytes received_autoboot
  read_temp_autoboot-Decodes (by_type k) h n =
      seq _ (read_u32-Decodes boot_device_type (omega arith)) (last by_type (read_u32-Decodes k h))
  read_temp_autoboot-Decodes (by_uuid b u) h n =
      seq _ (read_u32-Decodes b h.0)
        (rw n (last (by_uuid boot_device_uuid) (read_string-Decodes t u h.2)))

-- The server reads the autoboot option that a client wrote, with an empty UUID read as a null
-- pointer. The option is well formed, its tag is one of the two of the enum, and the message is
-- shorter than 2 ^ 32 bytes.
deserialise_temp_autoboot-autoboot_bytes :
    (t : Talloc) (action : ℕ) (a : AutobootOption)
    → IsAutobootOption a
    → IsKnown a
    → length (autoboot_bytes a) < 2 ^ 32
    → value (deserialise_temp_autoboot t (message_of action (autoboot_bytes a)))
      ≡ some (received_autoboot a)
unfolding deserialise_temp_autoboot
deserialise_temp_autoboot-autoboot_bytes t action a h k b =
    Decodes-message _ action (read_temp_autoboot-Decodes t a h k) b

-- An autoboot option that is cut short anywhere is refused, under the same conditions.
deserialise_temp_autoboot-truncated :
    (t : Talloc) (action : ℕ) (a : AutobootOption) (p q : Bytes)
    → IsAutobootOption a
    → IsKnown a
    → length (autoboot_bytes a) < 2 ^ 32
    → p ++ q ≡ autoboot_bytes a
    → q ≢ []
    → deserialise_temp_autoboot t (message_of action p) ≡ refused
unfolding deserialise_temp_autoboot
deserialise_temp_autoboot-truncated t action a p q h k b e ne =
    Decodes-truncated _ action p q (read_temp_autoboot-Decodes t a h k) e ne b

finish-overrun : (out : Bytes) (n : ℕ) → n < length out → finish out n ≡ overrun
unfolding finish
finish-overrun out n h = ground arith

-- The buffer that `pb_protocol_temp_autoboot_len` asks for has room for an option by device type.
-- For an option by UUID it is four bytes short, so the serialiser writes behind it and its
-- assertion fails. The message is shorter than 2 ^ 32 bytes.
pub serialise_temp_autoboot-temp_autoboot_len :
    (a : AutobootOption)
    → length (autoboot_bytes a) < 2 ^ 32
    → serialise_temp_autoboot a (temp_autoboot_len a)
      ≡ elim a [ by_type k ↦ written (autoboot_bytes (by_type k)) | by_uuid b u ↦ overrun ]
unfolding serialise_temp_autoboot temp_autoboot_len autoboot_opt_len
serialise_temp_autoboot-temp_autoboot_len (by_type k) h =
    finish-written _ _ (omega arith) (omega (arith, length-autoboot_bytes (by_type k)))
serialise_temp_autoboot-temp_autoboot_len (by_uuid b u) h =
    finish-overrun _ _ (omega (arith, length-autoboot_bytes (by_uuid b u)))
