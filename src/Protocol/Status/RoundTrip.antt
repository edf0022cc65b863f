-- ===== src/Protocol/Status/RoundTrip.antt =====
-- What a client makes of a status message.
use petitboot.Types.{Status, status_info, status_error}
use petitboot.Protocol.Status.{
  boot_status_len, boot_status_bytes, serialise_boot_status, read_boot_status,
  deserialise_boot_status,
}
use petitboot.Base.{
  ℕ, ◌+◌, ◌^◌, ◌<◌, ◌≤◌, ◌≡◌, ◌≢◌, ◌==◌, ◌||◌, refl, ◌∙◌, Bool, true, false, some, [], ◌∷◌, ◌++◌,
  arith, Bytes, length, length-append,
}
use petitboot.Talloc.{Talloc}
use petitboot.Protocol.Words.{put_be32, length-put_be32}
use petitboot.Protocol.Reader.{refused, fault, Reader, ◌>>=◌, load_bool, cursor, Cursor}
use petitboot.Protocol.Fields.{
  IsString, received, put_string, put_bool, optional_strlen, written, message_of, value, check,
}
use petitboot.Protocol.Codec.{Reads, Decodes-Reads, Reads-seq, Reads-last, Decodes-step}
use petitboot.Protocol.Codec.Fields.{read_u32-Decodes, load_bool-Reads, check-Decodes, cut_shorter}
use petitboot.Protocol.Codec.Strings.{length-put_string, read_string-Decodes}
use petitboot.Protocol.Codec.Messages.{finish-written, Reads-message}

unfoldable pub received_status : Status → Status
received_status s = record s { message = received s.message }

known_type : (k : ℕ) → k ≤ status_error → (k == status_error || k == status_info) ≡ true
known_type k h = ground arith

unknown_type : (k : ℕ) → status_error < k → (k == status_error || k == status_info) ≡ false
unknown_type k h = ground arith

module _ (t : Talloc) (s : Status) (v : IsString s.message) where
  read_boot_status-Reads :
      s.type ≤ status_error → Reads 2 (read_boot_status t) (boot_status_bytes s) (received_status s)
  unfolding read_boot_status boot_status_bytes received_status
  read_boot_status-Reads k = Reads-seq _ (Decodes-Reads (read_u32-Decodes s.type (omega arith))) (
      Reads-seq _ (Decodes-Reads (check-Decodes _ (known_type s.type k))) (
        Reads-seq _ (Decodes-Reads (read_string-Decodes t s.message v))
          (Reads-seq _ (load_bool-Reads s.backlog) (Reads-last _ (load_bool-Reads s.boot_active)))))

length-boot_status_bytes :
    (s : Status) → length (boot_status_bytes s) ≡ 10 + optional_strlen s.message
unfolding boot_status_bytes put_bool
length-boot_status_bytes s = omega (arith, length-append {0}, length-put_string, length-put_be32)

boot_status_fits :
    (s : Status)
    → length (boot_status_bytes s) + 6 < 2 ^ 31
    → (boot_status_len s < 2 ^ 31) × (length (boot_status_bytes s) ≤ boot_status_len s)
unfolding boot_status_len
boot_status_fits s h =
    (omega (arith, length-boot_status_bytes s), omega (arith, length-boot_status_bytes s))

-- A status that the server writes into a buffer of `pb_protocol_boot_status_len` bytes fits, and a
-- client reads the same status from it, with an empty text read as a null pointer. The type is one
-- of the two that the enum names, the text is a C string and the message shorter than 2 ^ 31 - 6
-- bytes.
deserialise_boot_status-serialise_boot_status :
    (t : Talloc) (action : ℕ) (s : Status)
    → IsString s.message
    → s.type ≤ status_error
    → length (boot_status_bytes s) + 6 < 2 ^ 31
    → (serialise_boot_status s (boot_status_len s) ≡ written (boot_status_bytes s))
      × (value (deserialise_boot_status t (message_of action (boot_status_bytes s)))
          ≡ some (received_status s))
unfolding serialise_boot_status deserialise_boot_status
deserialise_boot_status-serialise_boot_status t action s v k h = (
  finish-written _ _ (boot_status_fits s h).0 (boot_status_fits s h).1,
  Reads-message _ action (read_boot_status-Reads t s v k) (omega arith),
)

check_refused :
    {A : Type 0} (f : Unit {0} → Reader A) (b : Bool) (c : Cursor)
    → b ≡ false
    → (check b >>= f) c ≡ refused
unfolding check ◌>>=◌
check_refused f b c h = rw h

-- A status whose type is no number of the enum is refused, whatever stands behind the type. The
-- type is a 32-bit number and the message is shorter than 2 ^ 32 bytes.
deserialise_boot_status-unknown :
    (t : Talloc) (action type : ℕ) (rest : Bytes)
    → status_error < type
    → type < 2 ^ 32
    → length (put_be32 type ++ rest) < 2 ^ 32
    → deserialise_boot_status t (message_of action (put_be32 type ++ rest)) ≡ refused
unfolding deserialise_boot_status read_boot_status
deserialise_boot_status-unknown t action type rest k w h =
    Decodes-step _ rest (read_u32-Decodes type w) h
    ∙ check_refused _ _ (cursor rest (length rest)) (unknown_type type k)

-- The flags of a status, or the start of them.
flags_cut :
    {A : Type 0} (f : Bool → Bool → Reader A) (x y : Bool) (p q : Bytes) (n : ℕ)
    → p ++ q ≡ put_bool x ++ put_bool y
    → q ≢ []
    → (load_bool >>= λ a. load_bool >>= λ b. f a b) (cursor p n) ≡ fault
unfolding load_bool ◌>>=◌ put_bool
flags_cut f x y [] q n e ne = refl
flags_cut f x y (a ∷ []) q n e ne = refl
flags_cut f x y (a ∷ b ∷ p) q n e ne = absurd (omega (arith, cut_shorter (a ∷ b ∷ p) q _ e ne))

-- A status message that ends behind its text, or between its two flags, makes the client load a
-- byte behind the message: the flags are read with no look at the payload's length. The type and
-- the text are as above.
pub deserialise_boot_status-cut_flags :
    (t : Talloc) (action : ℕ) (s : Status) (p q : Bytes)
    → IsString s.message
    → s.type ≤ status_error
    → p ++ q ≡ put_bool s.backlog ++ put_bool s.boot_active
    → q ≢ []
    → length (put_be32 s.type ++ (put_string s.message ++ p)) < 2 ^ 32
    → deserialise_boot_status t (message_of action (put_be32 s.type ++ (put_string s.message ++ p)))
      ≡ fault
unfolding deserialise_boot_status read_boot_status
deserialise_boot_status-cut_flags t action s p q v k e ne h =
    let l = length-append (put_be32 s.type) (put_string s.message ++ p) in
    Decodes-step _ _ (read_u32-Decodes s.type (omega arith)) h
    ∙ Decodes-step _ _ (check-Decodes _ (known_type s.type k)) (omega arith)
    ∙ Decodes-step _ p (read_string-Decodes t s.message v) (omega arith)
    ∙ flags_cut _ s.backlog s.boot_active p q (length p) e ne
