-- ===== src/Protocol/Codec/Fields.antt =====
-- Words, flags and byte arrays meet their readers.
use petitboot.Base.{
  ℕ, ◌+◌, ◌^◌, ◌<◌, ◌≡◌, ◌≢◌, refl, ap, ◌∙◌, true, false, [], ◌∷◌, ◌++◌, Bool, ltb-true, ltb-false,
  ◌≤◌, arith, Bytes, length, length-append, drop-append, take-append, ◌≤◌,
}
use petitboot.Protocol.Words.{
  ByteOrder, put_be32, put_host32, get_be32-put_be32, get_host32-put_host32, length-put_be32,
  length-put_host32,
}
use petitboot.Protocol.Reader.{
  cursor, done, refused, Reader, ◌>>=◌, pure, load_bool, lower_len, need, load_bytes, load_host32,
  read_u32,
}
use petitboot.Protocol.Fields.{
  put_bool, read_host32, read_bool, read_bytes, check, read_checked_bool,
}
use petitboot.Protocol.Codec.{Decodes, Reads, >>=-done, >>=-refused}

-- A nonempty rest makes a cut shorter than the whole.
pub cut_shorter : (p q out : Bytes) → p ++ q ≡ out → q ≢ [] → length p < length out
cut_shorter p [] out e ne = absurd (ne refl)
cut_shorter p (x ∷ q) out e ne = omega (arith, ap length e, length-append p (x ∷ q))

pub read_u32-Decodes : (n : ℕ) → n < 2 ^ 32 → Decodes read_u32 (put_be32 n) n
unfolding read_u32
read_u32-Decodes n b = record {
  reads = λ rest k h. ground (arith, get_be32-put_be32 n rest b, length-put_be32 n);
  strict = λ p q s ne h. ground (arith, cut_shorter p q _ s ne, length-put_be32 n);
}

need_done : (k : ℕ) (m : Bytes) (n : ℕ) → k ≤ n → need k (cursor m n) ≡ done tt (cursor m n)
unfolding need
need_done k m n h = rw (ltb-false n k h)

need_refused : (k : ℕ) (m : Bytes) (n : ℕ) → n < k → need k (cursor m n) ≡ refused
unfolding need
need_refused k m n h = rw (ltb-true n k h)

-- `need k`, a load of `k` bytes, and `len -= k`.
module _ {A : Type 0} (k : ℕ) (load : Reader A) (out : Bytes) (a : A) where
  checked-Decodes :
      length out ≡ k
      → ((rest : Bytes) (n : ℕ) → load (cursor (out ++ rest) n) ≡ done a (cursor rest n))
      → Decodes (need k >>= λ _. load >>= λ v. lower_len k >>= λ _. pure v) out a
  unfolding lower_len pure
  checked-Decodes l e = record {
    reads = λ rest n h.
        >>=-done (need k) _ (need_done k (out ++ rest) (length out + n) (omega arith))
        ∙ >>=-done load _ (e rest (length out + n))
        ∙ >>=-done (lower_len k) (λ _. pure a) refl
        ∙ ap (λ k. done a (cursor rest k)) (omega arith);
    strict = λ p q s ne h.
        >>=-refused (need k) _
          (need_refused k p (length p) (omega (arith, cut_shorter p q out s ne)));
  }

pub load_host32_lem :
    (o : ByteOrder) (n : ℕ) (rest : Bytes) (k : ℕ)
    → n < 2 ^ 32
    → load_host32 o (cursor (put_host32 o n ++ rest) k) ≡ done n (cursor rest k)
unfolding load_host32
load_host32_lem o n rest k h = rw (get_host32-put_host32 o n rest h, load_host32)

pub read_host32-Decodes :
    (o : ByteOrder) (n : ℕ) → n < 2 ^ 32 → Decodes (read_host32 o) (put_host32 o n) n
unfolding read_host32
read_host32-Decodes o n h =
    checked-Decodes 4 (load_host32 o) (put_host32 o n) n (length-put_host32 o n)
      (λ rest k. load_host32_lem o n rest k h)

pub load_bool-Reads : (b : Bool) → Reads 1 load_bool (put_bool b) b
unfolding load_bool put_bool
load_bool-Reads true = record {
  leaves = λ rest n h. ap (λ k. done true (cursor rest k)) (omega arith);
}
load_bool-Reads false = record {
  leaves = λ rest n h. ap (λ k. done false (cursor rest k)) (omega arith);
}

pub read_bool-Reads : (b : Bool) → Reads 0 read_bool (put_bool b) b
unfolding read_bool ◌>>=◌ load_bool lower_len pure put_bool
read_bool-Reads true = record {
  leaves = λ rest n h. ap (λ k. done true (cursor rest k)) (omega arith);
}
read_bool-Reads false = record {
  leaves = λ rest n h. ap (λ k. done false (cursor rest k)) (omega arith);
}

pub load_bytes_lem :
    (s rest : Bytes) (n : ℕ) → load_bytes (length s) (cursor (s ++ rest) n) ≡ done s (cursor rest n)
unfolding load_bytes
load_bytes_lem s rest n = rw (
  ltb-false (length (s ++ rest)) (length s) (omega (arith, length-append s rest)),
  take-append s rest,
  drop-append s rest,
)

pub load_bytes-Reads : (s : Bytes) → Reads (length s) (load_bytes (length s)) s s
load_bytes-Reads s = record {
  leaves = λ rest n h. load_bytes_lem s rest _ ∙ ap (λ k. done s (cursor rest k)) (omega arith);
}

pub read_bytes-Decodes : (s : Bytes) → Decodes (read_bytes (length s)) s s
unfolding read_bytes
read_bytes-Decodes s =
    checked-Decodes (length s) (load_bytes (length s)) s s refl (load_bytes_lem s)

pub check-Decodes : (b : Bool) → b ≡ true → Decodes (check b) [] tt
unfolding check
check-Decodes b h = record {
  reads = λ rest n k. rw h (ap (λ k. done tt (cursor rest k)) (omega arith));
  strict = λ p q e ne k. absurd (omega (arith, cut_shorter p q [] e ne));
}

pub read_checked_bool-Decodes : (b : Bool) → Decodes read_checked_bool (put_bool b) b
unfolding read_checked_bool load_bool put_bool
read_checked_bool-Decodes true = checked-Decodes 1 load_bool (1 ∷ []) true refl (λ rest n. refl)
read_checked_bool-Decodes false = checked-Decodes 1 load_bool (0 ∷ []) false refl (λ rest n. refl)

pub load_host32-Reads :
    (o : ByteOrder) (n : ℕ) → n < 2 ^ 32 → Reads 4 (load_host32 o) (put_host32 o n) n
load_host32-Reads o n h = record {
  leaves = λ rest k b.
      load_host32_lem o n rest (length (put_host32 o n) + k) h
      ∙ ap (λ k. done n (cursor rest k)) (omega (arith, length-put_host32 o n));
}

-- A load of `k` bytes, and `len -= k` behind it.
module _ {A B : Type 0} (k : ℕ) (load : Reader A) (g : A → B) (out : Bytes) (a : A) where
  pub lowered-Reads :
      length out ≡ k
      → ((rest : Bytes) (n : ℕ) → load (cursor (out ++ rest) n) ≡ done a (cursor rest n))
      → Reads 0 (load >>= λ v. lower_len k >>= λ _. pure (g v)) out (g a)
  unfolding lower_len pure
  lowered-Reads l e = record {
    leaves = λ rest n h.
        >>=-done load _ (e rest (length out + n))
        ∙ >>=-done (lower_len k) (λ _. pure (g a)) refl
        ∙ ap (λ j. done (g a) (cursor rest j)) (omega arith);
  }

pub load_bool_lem :
    (b : Bool) (rest : Bytes) (n : ℕ)
    → load_bool (cursor (put_bool b ++ rest) n) ≡ done b (cursor rest n)
unfolding load_bool put_bool
load_bool_lem true rest n = refl
load_bool_lem false rest n = refl
