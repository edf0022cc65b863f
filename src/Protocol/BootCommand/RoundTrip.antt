-- ===== src/Protocol/BootCommand/RoundTrip.antt =====
-- What the server makes of a boot request.
use petitboot.Types.{BootCommand}
use petitboot.Protocol.BootCommand.{
  boot_len, boot_command_bytes, serialise_boot_command, read_boot_command, deserialise_boot_command,
}
use petitboot.Base.{ℕ, ◌^◌, ◌<◌, ◌≡◌, ◌≢◌, some, [], ◌++◌, arith, Bytes, length, length-append}
use petitboot.Talloc.{Talloc}
use petitboot.Protocol.Reader.{refused}
use petitboot.Protocol.Fields.{IsString, received, written, message_of, value}
use petitboot.Protocol.Codec.{Decodes, seq, last}
use petitboot.Protocol.Codec.Strings.{length-put_string, read_string-Decodes}
use petitboot.Protocol.Codec.Messages.{finish-written, Decodes-message, Decodes-truncated}

-- Every string of the request is a C string or null.
pub record IsBootCommand (b : BootCommand) : Type 0 where
  pub option_id : IsString b.option_id
  pub boot_image_file : IsString b.boot_image_file
  pub initrd_file : IsString b.initrd_file
  pub dtb_file : IsString b.dtb_file
  pub boot_args : IsString b.boot_args
  pub args_sig_file : IsString b.args_sig_file
  pub console : IsString b.console

unfoldable pub received_boot_command : BootCommand → BootCommand
received_boot_command b = record {
  option_id = received b.option_id;
  boot_image_file = received b.boot_image_file;
  initrd_file = received b.initrd_file;
  dtb_file = received b.dtb_file;
  boot_args = received b.boot_args;
  args_sig_file = received b.args_sig_file;
  console = received b.console;
}

module _ (t : Talloc) {b : BootCommand} (h : IsBootCommand b) where
  read_boot_command-Decodes :
      Decodes (read_boot_command t) (boot_command_bytes b) (received_boot_command b)
  unfolding read_boot_command boot_command_bytes received_boot_command
  read_boot_command-Decodes = seq _ (read_string-Decodes t b.option_id h.option_id) (
      seq _ (read_string-Decodes t b.boot_image_file h.boot_image_file) (
        seq _ (read_string-Decodes t b.initrd_file h.initrd_file) (
          seq _ (read_string-Decodes t b.dtb_file h.dtb_file) (
            seq _ (read_string-Decodes t b.boot_args h.boot_args) (
              seq _ (read_string-Decodes t b.args_sig_file h.args_sig_file)
                (last _ (read_string-Decodes t b.console h.console)))))))

pub boot_len_lem :
    (b : BootCommand)
    → length (boot_command_bytes b) < 2 ^ 32
    → boot_len b ≡ length (boot_command_bytes b)
unfolding boot_command_bytes boot_len
boot_len_lem b h = omega (arith, length-append {0}, length-put_string)

-- A boot request that a client writes into a buffer of `pb_protocol_boot_len` bytes fits, and the
-- server reads the same request from it, with each empty string read as a null pointer. The strings
-- are C strings and the message is shorter than 2 ^ 31 bytes.
pub deserialise_boot_command-serialise_boot_command :
    (t : Talloc) (action : ℕ) {b : BootCommand}
    → IsBootCommand b
    → length (boot_command_bytes b) < 2 ^ 31
    → (serialise_boot_command b (boot_len b) ≡ written (boot_command_bytes b))
      × (value (deserialise_boot_command t (message_of action (boot_command_bytes b)))
          ≡ some (received_boot_command b))
unfolding serialise_boot_command deserialise_boot_command
deserialise_boot_command-serialise_boot_command t action {b} h k = (
  finish-written _ _ (omega (arith, boot_len_lem b (omega arith)))
      (omega (arith, boot_len_lem b (omega arith))),
  Decodes-message _ action (read_boot_command-Decodes t h) (omega arith),
)

-- A boot request that is cut short anywhere is refused, under the same conditions.
deserialise_boot_command-truncated :
    (t : Talloc) (action : ℕ) {b : BootCommand} (p q : Bytes)
    → IsBootCommand b
    → length (boot_command_bytes b) < 2 ^ 32
    → p ++ q ≡ boot_command_bytes b
    → q ≢ []
    → deserialise_boot_command t (message_of action p) ≡ refused
unfolding deserialise_boot_command
deserialise_boot_command-truncated t action p q h k e ne =
    Decodes-truncated _ action p q (read_boot_command-Decodes t h) e ne k
