-- ===== src/Protocol/BootOption/RoundTrip.antt =====
-- What a client makes of a boot option.
use petitboot.Types.{BootOption}
use petitboot.Protocol.BootOption.{
  boot_option_len, boot_option_bytes, serialise_boot_option, read_boot_option,
  deserialise_boot_option, check_end,
}
use petitboot.Base.{
  ℕ, ◌-◌, ◌^◌, ◌<◌, ◌≡◌, leb-true, ap, ◌∙◌, some, [], arith, Bytes, length, length-append,
}
use petitboot.Talloc.{Talloc}
use petitboot.Protocol.Words.{length-put_be32}
use petitboot.Protocol.Reader.{done, cursor}
use petitboot.Protocol.Fields.{IsString, received, put_bool, written, message_of, value}
use petitboot.Protocol.Codec.{Reads, Decodes-Reads, Reads-seq, Reads-last}
use petitboot.Protocol.Codec.Fields.{read_u32-Decodes, read_bool-Reads, read_checked_bool-Decodes}
use petitboot.Protocol.Codec.Strings.{length-put_string, read_string-Decodes}
use petitboot.Protocol.Codec.Messages.{finish-written, Reads-run}

-- Every string of the option is a C string or null, and its type is a word.
pub record IsBootOption (b : BootOption) : Type 0 where
  pub device_id : IsString b.device_id
  pub id : IsString b.id
  pub name : IsString b.name
  pub description : IsString b.description
  pub icon_file : IsString b.icon_file
  pub boot_image_file : IsString b.boot_image_file
  pub initrd_file : IsString b.initrd_file
  pub dtb_file : IsString b.dtb_file
  pub boot_args : IsString b.boot_args
  pub args_sig_file : IsString b.args_sig_file
  pub type : b.type < 2 ^ 32

unfoldable pub received_boot_option : BootOption → BootOption
received_boot_option b = record b {
  device_id = received b.device_id;
  id = received b.id;
  name = received b.name;
  description = received b.description;
  icon_file = received b.icon_file;
  boot_image_file = received b.boot_image_file;
  initrd_file = received b.initrd_file;
  dtb_file = received b.dtb_file;
  boot_args = received b.boot_args;
  args_sig_file = received b.args_sig_file;
}

module _ (t : Talloc) {b : BootOption} (h : IsBootOption b) where
  read_boot_option-Reads :
      Reads 0 (read_boot_option t) (boot_option_bytes b) (received_boot_option b)
  unfolding read_boot_option boot_option_bytes received_boot_option
  read_boot_option-Reads =
      Reads-seq _ (Decodes-Reads (read_string-Decodes t b.device_id h.device_id)) (
        Reads-seq _ (Decodes-Reads (read_string-Decodes t b.id h.id)) (
          Reads-seq _ (Decodes-Reads (read_string-Decodes t b.name h.name)) (
            Reads-seq _ (Decodes-Reads (read_string-Decodes t b.description h.description)) (
              Reads-seq _ (Decodes-Reads (read_string-Decodes t b.icon_file h.icon_file)) (
                Reads-seq _
                  (Decodes-Reads (read_string-Decodes t b.boot_image_file h.boot_image_file))
                  (Reads-seq _ (Decodes-Reads (read_string-Decodes t b.initrd_file h.initrd_file)) (
                    Reads-seq _ (Decodes-Reads (read_string-Decodes t b.dtb_file h.dtb_file)) (
                      Reads-seq _ (Decodes-Reads (read_string-Decodes t b.boot_args h.boot_args)) (
                        Reads-seq _
                          (Decodes-Reads (read_string-Decodes t b.args_sig_file h.args_sig_file))
                          (Reads-seq _ (Decodes-Reads (read_checked_bool-Decodes b.is_default)) (
                            Reads-seq _ (read_bool-Reads b.is_autoboot_default) (
                              Reads-last _
                                (Decodes-Reads (read_u32-Decodes b.type h.type))))))))))))))

pub boot_option_len_lem :
    (b : BootOption)
    → length (boot_option_bytes b) < 2 ^ 32
    → boot_option_len b ≡ length (boot_option_bytes b)
unfolding boot_option_bytes boot_option_len put_bool
boot_option_len_lem b h = omega (arith, length-append {0}, length-put_string, length-put_be32)

check_end_whole :
    {A : Type 0} (action : ℕ) (out : Bytes) (a : A) (k : ℕ)
    → check_end (message_of action out) (done a (cursor [] k)) ≡ done a (cursor [] k)
unfolding check_end
check_end_whole action out a k = rw (leb-true (length out - 0) (length out) (omega arith))

-- A boot option that the server writes into a buffer of `pb_protocol_boot_option_len` bytes fits,
-- and a client reads the same option from it, with each empty string read as a null pointer. The
-- strings are C strings, the type is a 32-bit number and the message is shorter than 2 ^ 31 bytes.
pub deserialise_boot_option-serialise_boot_option :
    (t : Talloc) (action : ℕ) {b : BootOption}
    → IsBootOption b
    → length (boot_option_bytes b) < 2 ^ 31
    → (serialise_boot_option b (boot_option_len b) ≡ written (boot_option_bytes b))
      × (value (deserialise_boot_option t (message_of action (boot_option_bytes b)))
          ≡ some (received_boot_option b))
unfolding serialise_boot_option deserialise_boot_option
deserialise_boot_option-serialise_boot_option t action {b} h k =
    let out = boot_option_bytes b in
    let run = Reads-run _ action (read_boot_option-Reads t h) (omega arith) in
    (
      finish-written _ _ (omega (arith, boot_option_len_lem b (omega arith)))
          (omega (arith, boot_option_len_lem b (omega arith))),
      ap (λ r. value (check_end (message_of action out) r)) run
          ∙ ap value (check_end_whole action out (received_boot_option b) _),
    )
