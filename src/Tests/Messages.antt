-- ===== src/Tests/Messages.antt =====
-- Examples for single messages and their transport.
use petitboot.CString.{codes}
use petitboot.Base.{◌+◌, ◌-◌, ◌^◌, ◌≡◌, refl, true, false, none, some, [], ◌∷◌, ◌++◌, arith}
use petitboot.Types.{Device, BootOption, Status}
use petitboot.Protocol.Words.{little, big, put_be32, put_host32}
use petitboot.Protocol.Reader.{fault, cursor, Message, read_string}
use petitboot.Protocol.Fields.{put_string, put_bool, message_of}
use petitboot.Protocol.Codec.Bounds.{StaysWithin, read_string-within, read_string-huge}
use petitboot.Protocol.Status.{deserialise_boot_status}
use petitboot.Protocol.Status.RoundTrip.{deserialise_boot_status-cut_flags}
use petitboot.Protocol.Transport.{write_message, read_message}
use petitboot.Protocol.Transport.Delivery.{read_message-write_message}
use petitboot.Tests.Data.{plain, text}

abbrev pub disk : Device
disk = record {
  id = text "sda";
  type = 1;
  name = text "sda";
  description = text "";
  icon_file = none;
}

abbrev pub entry : BootOption
entry = record {
  device_id = text "sda";
  id = text "sda@linux";
  name = text "Linux";
  description = none;
  icon_file = none;
  boot_image_file = text "/vmlinux";
  initrd_file = none;
  dtb_file = none;
  boot_args = text "quiet";
  args_sig_file = none;
  is_default = true;
  is_autoboot_default = false;
  type = 0;
}

abbrev ready : Status
ready = record { type = 0; message = text "Booting"; backlog = false; boot_active = true }

ready_cut :
    deserialise_boot_status plain
      (message_of 6 (put_be32 0 ++ (put_string (text "Booting") ++ put_bool false)))
    ≡ fault
unfolding put_string put_be32 put_bool
ready_cut =
    deserialise_boot_status-cut_flags plain 6 ready (put_bool false) (put_bool true) (omega arith)
      (omega arith) refl (λ e. cc) (omega arith)

string_within : StaysWithin (read_string plain (cursor (0 ∷ 0 ∷ 0 ∷ 9 ∷ b'x' ∷ []) 5))
unfolding petitboot.Protocol.Words.get_be32
string_within =
    read_string-within plain (cursor (0 ∷ 0 ∷ 0 ∷ 9 ∷ b'x' ∷ []) 5) (omega arith)
      (λ l body e. ground arith)

string_huge : read_string plain (cursor (put_be32 (2 ^ 32 - 4 + 3) ++ codes "abc") 7) ≡ fault
string_huge =
    read_string-huge plain 3 (codes "abc") 7 (omega arith) (omega arith) (omega arith) (omega arith)

abbrev note : Message
note = message_of 11 (codes "tftp://host/path")

note_delivered :
    ((write_message (λ k. 3) note).1 ≡ true)
    × (read_message (λ k. 8) ((write_message (λ k. 3) note).0 ++ codes "next")
        ≡ some (note, codes "next"))
note_delivered =
    read_message-write_message (λ k. 3) (λ k. 8) note (codes "next") (omega arith)
      (λ j. omega arith) (λ j. omega arith) (omega arith)
