-- ===== src/Protocol/Codec/Bounds.antt =====
-- Whether `read_string` stays inside the message.
use petitboot.Base.{length-drop}
use petitboot.Talloc.{IsText}
use petitboot.Protocol.Words.{get_be32}
use petitboot.Protocol.Reader.{read_string_body}
use petitboot.Protocol.Codec.Strings.{
  read_string_step, read_string_short, body_short, body_empty, body_text,
}
use petitboot.Base.{
  ℕ, suc, zero, ◌+◌, ◌-◌, ◌^◌, ◌<◌, ◌≤◌, ◌≡◌, inl, inr, ltb, refl, some, [], ◌∷◌, ◌++◌, arith,
  Bytes, length, Bool-cases,
}
use petitboot.Talloc.{Talloc}
use petitboot.Protocol.Words.{put_be32}
use petitboot.Protocol.Reader.{refused, fault, done, read_string, cursor, Cursor, Outcome}
use petitboot.Protocol.Codec.Strings.{read_string_past}

-- No load outside the block, and behind it a counter that the block covers.
abbrev pub StaysWithin : {A : Type 0} → Outcome A → Type 0
StaysWithin (done a c) = c.len ≤ length c.mem
StaysWithin refused = Unit
StaysWithin fault = ⊥

get_be32-length :
    (m : Bytes) {l : ℕ} {body : Bytes} → get_be32 m ≡ some (l, body) → length m ≡ 4 + length body
unfolding get_be32
get_be32-length [] e = cc
get_be32-length (a ∷ []) e = cc
get_be32-length (a ∷ b ∷ []) e = cc
get_be32-length (a ∷ b ∷ c ∷ []) e = cc
get_be32-length (a ∷ b ∷ c ∷ d ∷ m) e = ground arith

get_be32-some :
    (m : Bytes) → 4 ≤ length m → (l : ℕ) × (body : Bytes) × (get_be32 m ≡ some (l, body))
unfolding get_be32
get_be32-some [] h = absurd (omega arith)
get_be32-some (a ∷ []) h = absurd (omega arith)
get_be32-some (a ∷ b ∷ []) h = absurd (omega arith)
get_be32-some (a ∷ b ∷ c ∷ []) h = absurd (omega arith)
get_be32-some (a ∷ b ∷ c ∷ d ∷ m) h = (_, m, refl)

module _ (t : Talloc) (c : Cursor) (covered : c.len ≤ length c.mem) where
  body_within :
      (l : ℕ) (body : Bytes)
      → 4 ≤ c.len
      → length c.mem ≡ 4 + length body
      → 4 + l < 2 ^ 32
      → StaysWithin (read_string_body t c l body)
  body_within zero body k e b = rw (body_empty t c body k) (omega (arith, length-drop 4 c.mem))
  body_within (suc l) body k e b = elim (Bool-cases (ltb c.len (4 + suc l))) [
    | inl short ↦ rw (body_short t c (suc l) body b (ground arith)) tt
    | inr fits ↦
        let le : 4 + suc l ≤ c.len = ground arith in
        let (s, copied) = t.strndup_within body (suc l) (omega arith) in
        rw (body_text t c (suc l) body (omega arith) b le copied)
          (omega (arith, length-drop (4 + suc l) c.mem))
  ]

-- On a cursor whose counter the block covers, `read_string` loads nothing outside the block and
-- leaves such a cursor behind, or refuses: provided that the length word, where there is one, is
-- below 2 ^ 32 - 4.
pub read_string-within :
    (t : Talloc) (c : Cursor)
    → c.len ≤ length c.mem
    → ((l : ℕ) (body : Bytes) → get_be32 c.mem ≡ some (l, body) → 4 + l < 2 ^ 32)
    → StaysWithin (read_string t c)
read_string-within t c covered word = elim (Bool-cases (ltb c.len 4)) [
  | inl short ↦ rw (read_string_short t c.mem c.len (ground arith)) tt
  | inr long ↦
      let k : 4 ≤ c.len = ground arith in
      let (l, body, e) = get_be32-some c.mem (omega arith) in
      rw (read_string_step t c k e)
        (body_within t c covered l body k (get_be32-length c.mem e) (word l body e))
]

-- With a length word of 2 ^ 32 - 4 or more the sum of the check wraps, so `read_string` does not
-- refuse it, whatever the counter says: it copies text up to the end of the block and beyond. The
-- counter is at least 4 and the memory behind the word has no 0 byte and fewer bytes than the word
-- says.
pub read_string-huge :
    (t : Talloc) (k : ℕ) (body : Bytes) (n : ℕ)
    → k < 4
    → 4 ≤ n
    → IsText body
    → length body < 2 ^ 32 - 4 + k
    → read_string t (cursor (put_be32 (2 ^ 32 - 4 + k) ++ body) n) ≡ fault
read_string-huge t k body n h four text short =
    read_string_past t (2 ^ 32 - 4 + k) body n (omega arith) (omega arith) four (omega arith) text
      short
