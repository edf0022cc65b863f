-- ===== src/Protocol/Transport/Delivery.antt =====
-- A message that is written arrives, however the calls cut it.
use Prim.Native.Nat.{min}
use mathlib.Core.Option
use petitboot.Base.{take-append-drop, length-take, length-drop, take-append_le, drop-append_le}
use petitboot.Protocol.Words.{get_be32, get_be32-put_be32}
use petitboot.Protocol.Fields.{max_payload}
use petitboot.Protocol.Transport.{
  wire_bytes, write_loop, write_message, read_loop, read_payload, read_header, read_message,
}
use mathlib.Core.List.{append-nil, append_assoc}
use mathlib.Core.Path.{ap₂}
use petitboot.Base.{
  ℕ, suc, zero, ◌+◌, ◌-◌, ◌^◌, ◌<◌, ◌≤◌, ◌≡◌, inl, inr, ◌==◌, ltb-false, refl, sym, ap, ◌∙◌, true,
  false, some, [], ◌∷◌, ◌++◌, arith, Bytes, length, length-append, Bool-cases, drop, take,
}
use petitboot.Protocol.Words.{put_be32, length-put_be32}
use petitboot.Protocol.Reader.{Message}

-- The sent bytes and the others make up the message.
write_loop-splits :
    (fuel : ℕ) (io : ℕ → ℕ) (k : ℕ) (pos : Bytes)
    → (write_loop fuel io k pos).0 ++ (write_loop fuel io k pos).1 ≡ pos
unfolding write_loop
write_loop-splits zero io k pos = refl
write_loop-splits (suc fuel) io k [] = refl
write_loop-splits (suc fuel) io k (c ∷ cs) =
    let rc = min (io k) (length (c ∷ cs)) in
    let ne : (length (c ∷ cs) == 0) ≡ false = ground arith in
    elim (Bool-cases (rc == 0)) [
      | inl e ↦ rw (ne, e)
      | inr e ↦
          rw (ne, e)
            (append_assoc (take rc (c ∷ cs)) _ _
              ∙ ap (◌++◌ (take rc (c ∷ cs))) (write_loop-splits fuel io (suc k) (drop rc (c ∷ cs)))
              ∙ take-append-drop rc (c ∷ cs))
    ]

min_pos : (a b : ℕ) → 0 < a → 0 < b → (min a b == 0) ≡ false
min_pos a b h k = ground arith

-- If every call moves a byte, all bytes are sent.
write_loop-all :
    (fuel : ℕ) (io : ℕ → ℕ) (k : ℕ) (pos : Bytes)
    → ((j : ℕ) → 0 < io j)
    → length pos ≤ fuel
    → (write_loop fuel io k pos).1 ≡ []
unfolding write_loop
write_loop-all zero io k [] h l = refl
write_loop-all zero io k (c ∷ cs) h l = absurd (omega arith)
write_loop-all (suc fuel) io k [] h l = refl
write_loop-all (suc fuel) io k (c ∷ cs) h l =
    let rc = min (io k) (length (c ∷ cs)) in
    let ne : (length (c ∷ cs) == 0) ≡ false = ground arith in
    rw (ne, min_pos (io k) (length (c ∷ cs)) (h k) (omega arith))
      (write_loop-all fuel io (suc k) (drop rc (c ∷ cs)) h
        (omega (arith, length-drop rc (c ∷ cs), h k)))

read_loop-all :
    (fuel : ℕ) (io : ℕ → ℕ) (k left : ℕ) (s later : Bytes)
    → ((j : ℕ) → 0 < io j)
    → left ≡ length s
    → left ≤ fuel
    → read_loop fuel io k left (s ++ later) ≡ some (s, later)
unfolding read_loop
read_loop-all zero io k left [] later h e l = rw e
read_loop-all zero io k left (c ∷ cs) later h e l = absurd (omega arith)
read_loop-all (suc fuel) io k left [] later h e l = rw e
read_loop-all (suc fuel) io k left (c ∷ cs) later h e l =
    let s : Bytes = c ∷ cs in
    let rc = min (io k) (min left (length (s ++ later))) in
    let g = length-append s later in
    let hk = h k in
    let small : rc ≤ length s = omega arith in
    let ne : (left == 0) ≡ false = ground arith in
    let go : (rc == 0) ≡ false = min_pos (io k) _ hk (omega arith) in
    let ih =
      read_loop-all fuel io (suc k) (left - rc) (drop rc s) later h
        (omega (arith, length-drop rc s)) (omega arith) in
    rw (ne, go)
      (ap₂
          (λ a b.
            Option.map (λ (r : Bytes × Bytes). (a ++ r.0, r.1))
              (read_loop fuel io (suc k) (left - rc) b))
          (take-append_le rc s later small) (drop-append_le rc s later small)
        ∙ ap (λ o. Option.map (λ (r : Bytes × Bytes). (take rc s ++ r.0, r.1)) o) ih
        ∙ ap (λ x. some (x, later)) (take-append-drop rc s))

-- A message of at most PB_PROTOCOL_MAX_PAYLOAD_SIZE bytes.
pub record IsMessage (m : Message) : Type 0 where
  pub action : m.action < 2 ^ 32
  pub payload_len : m.payload_len ≡ length m.payload
  pub small : m.payload_len ≤ max_payload

length-wire_bytes :
    (m : Message) → m.payload_len ≡ length m.payload → length (wire_bytes m) ≡ 8 + m.payload_len
unfolding wire_bytes
length-wire_bytes m e =
    omega
      (arith, length-append {0}, length-put_be32, length-take m.payload_len m.payload (omega arith))

take_whole : (n : ℕ) (xs : Bytes) → n ≡ length xs → take n xs ≡ xs
take_whole n [] e = rw e
take_whole n (x ∷ xs) e = rw e (ap (◌∷◌ x) (take_whole (length xs) xs refl))

read_header_step :
    (io : ℕ → ℕ) (s : Bytes) {a n : ℕ} {s1 s2 : Bytes}
    → get_be32 s ≡ some (a, s1)
    → get_be32 s1 ≡ some (n, s2)
    → read_header io s ≡ read_payload io a n s2
unfolding read_header
read_header_step io s e f = rw (e, read_header) (rw f)

read_payload_whole :
    (io : ℕ → ℕ) (m : Message) (later : Bytes)
    → IsMessage m
    → ((j : ℕ) → 0 < io j)
    → read_payload io m.action m.payload_len (m.payload ++ later) ≡ some (m, later)
unfolding read_payload
read_payload_whole io m later h pos = rw (
  ltb-false max_payload m.payload_len h.small,
  read_loop-all m.payload_len io 1 m.payload_len m.payload later pos h.payload_len (omega arith),
)

read_header-wire :
    (io : ℕ → ℕ) (m : Message) (later : Bytes)
    → IsMessage m
    → ((j : ℕ) → 0 < io j)
    → read_header io (wire_bytes m ++ later) ≡ some (m, later)
unfolding wire_bytes
read_header-wire io m later h pos =
    rw
      (
        take_whole m.payload_len m.payload h.payload_len,
        append_assoc (put_be32 m.action) (put_be32 m.payload_len ++ m.payload) later,
        append_assoc (put_be32 m.payload_len) m.payload later,
      )
      (read_header_step io _ (get_be32-put_be32 m.action _ h.action)
          (get_be32-put_be32 m.payload_len _ (omega arith))
        ∙ read_payload_whole io m later h pos)

read_wire :
    (r : ℕ → ℕ) (m : Message) (later : Bytes)
    → IsMessage m
    → ((j : ℕ) → 0 < r j)
    → 8 ≤ r 0
    → read_message r (wire_bytes m ++ later) ≡ some (m, later)
unfolding read_message
read_wire r m later h pr first =
    let l = length-append (wire_bytes m) later in
    let k = length-wire_bytes m h.payload_len in
    let e : min (r 0) (min 8 (length (wire_bytes m ++ later))) ≡ 8 = omega arith in
    rw e (read_header-wire r m later h pr)

-- If every call moves at least one byte, and the first read gets the eight bytes of the header,
-- the message is sent whole with result 0, and the reader gets it back and leaves what follows on
-- the stream. The message's payload has the length that its header names, at most 64 KiB.
pub read_message-write_message :
    (w r : ℕ → ℕ) (m : Message) (later : Bytes)
    → IsMessage m
    → ((j : ℕ) → 0 < w j)
    → ((j : ℕ) → 0 < r j)
    → 8 ≤ r 0
    → ((write_message w m).1 ≡ true)
      × (read_message r ((write_message w m).0 ++ later) ≡ some (m, later))
unfolding read_message write_message
read_message-write_message w r m later h pw pr first =
    let n = length (wire_bytes m) in
    let all = write_loop-all n w 0 (wire_bytes m) pw (omega arith) in
    let sent : (write_loop n w 0 (wire_bytes m)).0 ≡ wire_bytes m =
      sym (append-nil _)
      ∙ ap (λ x. (write_loop n w 0 (wire_bytes m)).0 ++ x) (sym all)
      ∙ write_loop-splits n w 0 (wire_bytes m) in
    (
      ap (λ x. length x == 0) all,
      ap (λ x. read_message r (x ++ later)) sent ∙ read_wire r m later h pr first,
    )
