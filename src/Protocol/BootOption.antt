-- ===== src/Protocol/BootOption.antt =====
-- Boot option announcements: lib/pb-protocol/pb-protocol.c, `pb_protocol_boot_option_len`,
-- `pb_protocol_serialise_boot_option` and `pb_protocol_deserialise_boot_option`.
pub mod RoundTrip
use petitboot.Types.{BootOption}
use petitboot.Base.{ℕ, ◌+◌, ◌-◌, ◌++◌, leb, if◌then◌else◌, u32, Bytes, length}
use petitboot.Talloc.{Talloc}
use petitboot.Protocol.Words.{put_be32}
use petitboot.Protocol.Reader.{
  Reader, Outcome, done, refused, fault, ◌>>=◌, pure, read_string, read_u32, Message, start,
}
use petitboot.Protocol.Fields.{
  optional_strlen, put_string, put_bool, Written, finish, read_bool, read_checked_bool,
}

unfoldable pub boot_option_len : BootOption → ℕ
boot_option_len b = u32 (
    4
    + optional_strlen b.device_id
    + (4 + optional_strlen b.id)
    + (4 + optional_strlen b.name)
    + (4 + optional_strlen b.description)
    + (4 + optional_strlen b.icon_file)
    + (4 + optional_strlen b.boot_image_file)
    + (4 + optional_strlen b.initrd_file)
    + (4 + optional_strlen b.dtb_file)
    + (4 + optional_strlen b.boot_args)
    + (4 + optional_strlen b.args_sig_file)
    + 1
    + 1
    + 4)

-- The ten strings, in the order of the message.
unfoldable pub boot_option_strings : BootOption → Bytes → Bytes
boot_option_strings b rest =
    put_string b.device_id
    ++ (put_string b.id
        ++ (put_string b.name
            ++ (put_string b.description
                ++ (put_string b.icon_file
                    ++ (put_string b.boot_image_file
                        ++ (put_string b.initrd_file
                            ++ (put_string b.dtb_file
                                ++ (put_string b.boot_args
                                    ++ (put_string b.args_sig_file ++ rest)))))))))

unfoldable pub boot_option_bytes : BootOption → Bytes
unfolding boot_option_strings
boot_option_bytes b =
    boot_option_strings b
      (put_bool b.is_default ++ (put_bool b.is_autoboot_default ++ put_be32 b.type))

unfoldable pub serialise_boot_option : BootOption → ℕ → Written
serialise_boot_option b buf_len = finish (boot_option_bytes b) buf_len

-- The length is looked at before the first flag and not before the second.
unfoldable pub read_boot_option : Talloc → Reader BootOption
read_boot_option t = do
  device_id ← read_string t
  id ← read_string t
  name ← read_string t
  description ← read_string t
  icon_file ← read_string t
  boot_image_file ← read_string t
  initrd_file ← read_string t
  dtb_file ← read_string t
  boot_args ← read_string t
  args_sig_file ← read_string t
  is_default ← read_checked_bool
  is_autoboot_default ← read_bool
  type ← read_u32
  pure (record {
    device_id = device_id;
    id = id;
    name = name;
    description = description;
    icon_file = icon_file;
    boot_image_file = boot_image_file;
    initrd_file = initrd_file;
    dtb_file = dtb_file;
    boot_args = boot_args;
    args_sig_file = args_sig_file;
    is_default = is_default;
    is_autoboot_default = is_autoboot_default;
    type = type;
  })

-- `rc = (pos <= message->payload + message->payload_len) ? 0 : -1`
unfoldable pub check_end : {A : Type 0} → Message → Outcome A → Outcome A
check_end m (done a c) =
    if leb (length m.payload - length c.mem) m.payload_len then done a c else refused
check_end m refused = refused
check_end m fault = fault

unfoldable pub deserialise_boot_option : Talloc → Message → Outcome BootOption
unfolding check_end
deserialise_boot_option t m = check_end m (read_boot_option t (start m))
