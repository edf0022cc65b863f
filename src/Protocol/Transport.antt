-- ===== src/Protocol/Transport.antt =====
-- Messages on a socket: lib/pb-protocol/pb-protocol.c, `pb_protocol_create_message`,
-- `pb_protocol_write_message` and `pb_protocol_read_message`. A call of read(2) or write(2) moves
-- as many bytes as the surroundings choose, at most as many as it is asked for; 0 stands for every
-- result that is not positive. The k-th call's choice is `io k`.
pub mod Delivery
use Prim.Native.Nat.{min}
use mathlib.Core.Option
use petitboot.Base.{zero, suc, take}
use petitboot.Protocol.Words.{get_be32}
use petitboot.Protocol.Fields.{max_payload}
use petitboot.Base.{
  ℕ, ◌-◌, ◌++◌, ◌==◌, if◌then◌else◌, Bool, [], none, some, map, Bytes, length, drop, ltb, Option,
  ◌&&◌, is_nonnegative,
}
use petitboot.Protocol.Words.{put_be32}
use petitboot.Protocol.Reader.{Message}

-- `none` is the error return; the payload's bytes are what the fresh memory holds. `payload_len` is
-- the pattern of an int, and the test lets a negative one pass.
unfoldable pub create_message : Bytes → ℕ → ℕ → Option Message
create_message memory action payload_len =
    if ltb max_payload payload_len && is_nonnegative payload_len
    then none
    else some (record { action = action; payload_len = payload_len; payload = memory })

-- The structure in memory after its header is put into network byte order.
unfoldable pub wire_bytes : Message → Bytes
wire_bytes m = put_be32 m.action ++ (put_be32 m.payload_len ++ take m.payload_len m.payload)

-- The loop of `pb_protocol_write_message` over the bytes from `pos`: those that were sent, and
-- those that were not. Each round but the last sends a byte, so the bytes are fuel enough.
unfoldable pub write_loop : ℕ → (ℕ → ℕ) → ℕ → Bytes → Bytes × Bytes
write_loop zero io k pos = ([], pos)
write_loop (suc fuel) io k pos =
    let rc = min (io k) (length pos) in
    let rest = write_loop fuel io (suc k) (drop rc pos) in
    if length pos == 0
    then ([], pos)
    else if rc == 0
    then ([], pos)
    else (take rc pos ++ rest.0, rest.1)

-- The bytes on the wire, and whether the result is 0.
unfoldable pub write_message : (ℕ → ℕ) → Message → Bytes × Bool
unfolding write_loop
write_message io m =
    let out = write_loop (length (wire_bytes m)) io 0 (wire_bytes m) in (out.0, length out.1 == 0)

-- The loop of `pb_protocol_read_message`: `left` bytes are missing from the payload. The result is
-- the bytes read and the stream behind them.
unfoldable pub read_loop : ℕ → (ℕ → ℕ) → ℕ → ℕ → Bytes → Option (Bytes × Bytes)
read_loop zero io k left stream = if left == 0 then some ([], stream) else none
read_loop (suc fuel) io k left stream =
    let rc = min (io k) (min left (length stream)) in
    let rest = read_loop fuel io (suc k) (left - rc) (drop rc stream) in
    if left == 0
    then some ([], stream)
    else if rc == 0
    then none
    else Option.map (λ r. (take rc stream ++ r.0, r.1)) rest

read_payload : (ℕ → ℕ) → ℕ → ℕ → Bytes → Option (Message × Bytes)
unfolding read_loop
read_payload io action payload_len stream =
    if ltb max_payload payload_len
    then none
    else Option.map
        (λ r. (record { action = action; payload_len = payload_len; payload = r.0 }, r.1))
        (read_loop payload_len io 1 payload_len stream)

read_header : (ℕ → ℕ) → Bytes → Option (Message × Bytes)
unfolding read_payload
read_header io stream = elim (get_be32 stream) [
  | none ↦ none
  | some (action, s) ↦ elim (get_be32 s) [
    | none ↦ none
    | some (payload_len, s') ↦ read_payload io action payload_len s'
  ]
]

-- The message at the head of a stream of bytes, and the bytes behind it. The header must come in
-- one call.
unfoldable pub read_message : (ℕ → ℕ) → Bytes → Option (Message × Bytes)
unfolding read_header
read_message io stream =
    let rc = min (io 0) (min 8 (length stream)) in if rc == 8 then read_header io stream else none
