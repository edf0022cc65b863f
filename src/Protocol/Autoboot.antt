-- ===== src/Protocol/Autoboot.antt =====
-- Autoboot options, alone in a message: lib/pb-protocol/pb-protocol.c,
-- `pb_protocol_temp_autoboot_len`, `pb_protocol_serialise_temp_autoboot` and
-- `pb_protocol_deserialise_temp_autoboot`; and as an item of a configuration message.
pub mod RoundTrip
use petitboot.Types.{AutobootOption, by_type, by_uuid, boot_device_type, boot_device_uuid}
use petitboot.Base.{ℕ, ◌+◌, ◌++◌, ◌==◌, if◌then◌else◌, u32, Bytes}
use petitboot.Talloc.{Talloc}
use petitboot.Protocol.Words.{put_be32}
use petitboot.Protocol.Reader.{
  Reader, Outcome, ◌>>=◌, pure, read_string, read_u32, Message, start, fail,
}
use petitboot.Protocol.Fields.{optional_strlen, put_string, Written, finish}

unfoldable pub temp_autoboot_len : AutobootOption → ℕ
temp_autoboot_len (by_type k) = u32 (4 + 4)
temp_autoboot_len (by_uuid b u) = u32 (4 + optional_strlen u)

unfoldable pub autoboot_bytes : AutobootOption → Bytes
autoboot_bytes (by_type k) = put_be32 boot_device_type ++ put_be32 k
autoboot_bytes (by_uuid b u) = put_be32 b ++ put_string u

unfoldable pub serialise_temp_autoboot : AutobootOption → ℕ → Written
serialise_temp_autoboot a buf_len = finish (autoboot_bytes a) buf_len

read_type : Reader AutobootOption
read_type = do k ← read_u32; pure (by_type k)

read_uuid : Talloc → ℕ → Reader AutobootOption
read_uuid t b = do u ← read_string t; pure (by_uuid b u)

read_temp_union : Talloc → ℕ → Reader AutobootOption
read_temp_union t b =
    if b == boot_device_type
    then read_type
    else if b == boot_device_uuid
    then read_uuid t b
    else fail

unfoldable pub read_temp_autoboot : Talloc → Reader AutobootOption
unfolding read_type read_uuid read_temp_union
read_temp_autoboot t = do b ← read_u32; read_temp_union t b

unfoldable pub deserialise_temp_autoboot : Talloc → Message → Outcome AutobootOption
deserialise_temp_autoboot t m = read_temp_autoboot t (start m)

read_opt_union : Talloc → ℕ → Reader AutobootOption
read_opt_union t b = if b == boot_device_type then read_type else read_uuid t b

-- The body of the loop over `autoboot_opts` in `pb_protocol_deserialise_config`.
unfoldable pub read_autoboot_opt : Talloc → Reader AutobootOption
unfolding read_type read_uuid read_opt_union
read_autoboot_opt t = do b ← read_u32; read_opt_union t b

-- The space that the loop over `autoboot_opts` in `pb_protocol_config_len` counts.
unfoldable pub autoboot_opt_len : AutobootOption → ℕ
autoboot_opt_len (by_type k) = 4 + 4
autoboot_opt_len (by_uuid b u) = 4 + 4 + optional_strlen u
