-- ===== src/Protocol/BootCommand.antt =====
-- Boot requests: lib/pb-protocol/pb-protocol.c, `pb_protocol_boot_len`,
-- `pb_protocol_serialise_boot_command` and `pb_protocol_deserialise_boot_command`.
pub mod RoundTrip
use petitboot.Types.{BootCommand}
use petitboot.Base.{ℕ, ◌+◌, ◌++◌, u32, Bytes}
use petitboot.Talloc.{Talloc}
use petitboot.Protocol.Reader.{Reader, Outcome, ◌>>=◌, pure, read_string, Message, start}
use petitboot.Protocol.Fields.{optional_strlen, put_string, Written, finish}

unfoldable pub boot_len : BootCommand → ℕ
boot_len b = u32 (
    4
    + optional_strlen b.option_id
    + (4 + optional_strlen b.boot_image_file)
    + (4 + optional_strlen b.initrd_file)
    + (4 + optional_strlen b.dtb_file)
    + (4 + optional_strlen b.boot_args)
    + (4 + optional_strlen b.args_sig_file)
    + (4 + optional_strlen b.console))

unfoldable pub boot_command_bytes : BootCommand → Bytes
boot_command_bytes b =
    put_string b.option_id
    ++ (put_string b.boot_image_file
        ++ (put_string b.initrd_file
            ++ (put_string b.dtb_file
                ++ (put_string b.boot_args
                    ++ (put_string b.args_sig_file ++ put_string b.console)))))

unfoldable pub serialise_boot_command : BootCommand → ℕ → Written
serialise_boot_command b buf_len = finish (boot_command_bytes b) buf_len

unfoldable pub read_boot_command : Talloc → Reader BootCommand
read_boot_command t = do
  option_id ← read_string t
  boot_image_file ← read_string t
  initrd_file ← read_string t
  dtb_file ← read_string t
  boot_args ← read_string t
  args_sig_file ← read_string t
  console ← read_string t
  pure (record {
    option_id = option_id;
    boot_image_file = boot_image_file;
    initrd_file = initrd_file;
    dtb_file = dtb_file;
    boot_args = boot_args;
    args_sig_file = args_sig_file;
    console = console;
  })

unfoldable pub deserialise_boot_command : Talloc → Message → Outcome BootCommand
deserialise_boot_command t m = read_boot_command t (start m)
