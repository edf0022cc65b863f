-- ===== src/Protocol/Codec/Messages.antt =====
-- Whole messages: a buffer that is large enough, and a reader that starts at the first byte.
use mathlib.Core.List.{append-nil}
use mathlib.Core.Path.{ap₂}
use petitboot.Base.{
  ℕ, ◌+◌, ◌^◌, ◌<◌, ◌≡◌, ◌≢◌, sym, ap, ◌∙◌, some, [], ◌++◌, leb-true, ltb-true, ◌≤◌, arith, Bytes,
  length, ◌≤◌,
}
use petitboot.Protocol.Reader.{cursor, done, refused, Reader, start}
use petitboot.Protocol.Fields.{written, finish, value, message_of}
use petitboot.Protocol.Codec.{Decodes, Reads, Decodes-Reads}

pub finish-written :
    (out : Bytes) (n : ℕ) → n < 2 ^ 31 → length out ≤ n → finish out n ≡ written out
unfolding finish
finish-written out n k h = rw (ltb-true n (2 ^ 31) k, leb-true (length out) n h)

-- A reader on a message with the whole payload, and on one whose payload is cut short.
module _ {A : Type 0} (m : Reader A) {out : Bytes} {a : A} where
  pub Reads-run :
      {k : ℕ} (action : ℕ)
      → Reads k m out a
      → length out + k < 2 ^ 32
      → m (start (message_of action out)) ≡ done a (cursor [] (0 + k))
  Reads-run action r h =
      ap₂ (λ s n. m (cursor s n)) (sym (append-nil out)) (omega arith) ∙ r.leaves [] 0 (omega arith)

  pub Reads-message :
      {k : ℕ} (action : ℕ)
      → Reads k m out a
      → length out + k < 2 ^ 32
      → value (m (start (message_of action out))) ≡ some a
  Reads-message action r h = ap value (Reads-run action r h)

  pub Decodes-message :
      (action : ℕ)
      → Decodes m out a
      → length out < 2 ^ 32
      → value (m (start (message_of action out))) ≡ some a
  Decodes-message action d h = Reads-message action (Decodes-Reads d) (omega arith)

  pub Decodes-truncated :
      (action : ℕ) (p q : Bytes)
      → Decodes m out a
      → p ++ q ≡ out
      → q ≢ []
      → length out < 2 ^ 32
      → m (start (message_of action p)) ≡ refused
  Decodes-truncated action p q d e ne h = d.strict p q e ne h
