-- ===== src/Protocol/Status.antt =====
-- Status messages: lib/pb-protocol/pb-protocol.c, `pb_protocol_boot_status_len`,
-- `pb_protocol_serialise_boot_status` and `pb_protocol_deserialise_boot_status`.
pub mod RoundTrip
use petitboot.Types.{Status, status_info, status_error}
use petitboot.Base.{ℕ, ◌+◌, ◌++◌, ◌==◌, ◌||◌, u32, Bytes}
use petitboot.Talloc.{Talloc}
use petitboot.Protocol.Words.{put_be32}
use petitboot.Protocol.Reader.{
  Reader, Outcome, ◌>>=◌, pure, read_string, read_u32, load_bool, Message, start,
}
use petitboot.Protocol.Fields.{optional_strlen, put_string, put_bool, Written, finish, check}

unfoldable pub boot_status_len : Status → ℕ
boot_status_len s = u32 (4 + (4 + optional_strlen s.message) + 4 + 4)

unfoldable pub boot_status_bytes : Status → Bytes
boot_status_bytes s =
    put_be32 s.type ++ (put_string s.message ++ (put_bool s.backlog ++ put_bool s.boot_active))

unfoldable pub serialise_boot_status : Status → ℕ → Written
serialise_boot_status s buf_len = finish (boot_status_bytes s) buf_len

-- The two flags behind the message text are loaded with no look at `len`.
unfoldable pub read_boot_status : Talloc → Reader Status
read_boot_status t = do
  type ← read_u32
  _ ← check (type == status_error || type == status_info)
  message ← read_string t
  backlog ← load_bool
  boot_active ← load_bool
  pure (record { type = type; message = message; backlog = backlog; boot_active = boot_active })

unfoldable pub deserialise_boot_status : Talloc → Message → Outcome Status
deserialise_boot_status t m = read_boot_status t (start m)
