-- ===== src/Protocol/Codec/Strings.antt =====
-- Strings and arrays of strings meet their readers.
use mathlib.Core.List.{append-nil, append_assoc, map}
use mathlib.Core.Path.{ap₂, subst}
use petitboot.Base.{
  ℕ, suc, ◌+◌, ◌-◌, ◌^◌, ◌<◌, ◌≡◌, ◌≢◌, refl, sym, ◌∙◌, inl, inr, false, none, some, [], ◌∷◌, ◌++◌,
  ◌==◌, ltb-true, ltb-false, ◌≤◌, u32, arith, Bytes, length, length-append, drop, drop-append,
  cut_append, List, All-weaken, ◌≤◌,
}
use petitboot.Talloc.{CStr, IsText, Talloc}
use petitboot.Protocol.Words.{put_be32, put_all, get_be32, get_be32-put_be32, length-put_be32}
use petitboot.Protocol.Reader.{
  Cursor, cursor, done, refused, fault, read_string, read_string_body, read_n,
}
use petitboot.Protocol.Fields.{
  put_string, optional_strlen, received, IsString, strings_len, read_strdup, AreStrings,
}
use petitboot.Protocol.Codec.{Decodes, last, read_n-Decodes}
use petitboot.Protocol.Codec.Fields.{cut_shorter}

pub length-put_string : (s : CStr) → length (put_string s) ≡ 4 + optional_strlen s
unfolding put_string optional_strlen
length-put_string none = length-put_be32 0
length-put_string (some s) =
    omega (arith, length-put_be32 (length s), length-append (put_be32 (length s)) s)

drop_word : (l : ℕ) (rest : Bytes) → drop 4 (put_be32 l ++ rest) ≡ rest
unfolding put_be32
drop_word l rest = refl

drop_string : (l : ℕ) (s rest : Bytes) → drop (4 + length s) (put_be32 l ++ (s ++ rest)) ≡ rest
unfolding put_be32
drop_string l s rest =
    let e : 4 + length s ≡ suc (suc (suc (suc (length s)))) = omega arith in
    rw e (drop-append s rest)

module _ (t : Talloc) where
  pub read_string_step :
      (c : Cursor) {l : ℕ} {body : Bytes}
      → 4 ≤ c.len
      → get_be32 c.mem ≡ some (l, body)
      → read_string t c ≡ read_string_body t c l body
  unfolding read_string
  read_string_step c h e = rw (ltb-false c.len 4 h, e)

  pub read_string_short : (m : Bytes) (n : ℕ) → n < 4 → read_string t (cursor m n) ≡ refused
  unfolding read_string
  read_string_short m n h = rw (ltb-true n 4 h)

  pub body_short :
      (c : Cursor) (l : ℕ) (body : Bytes)
      → 4 + l < 2 ^ 32
      → c.len < 4 + l
      → read_string_body t c l body ≡ refused
  unfolding read_string_body
  body_short c l body b h = rw (ltb-true c.len (u32 (4 + l)) (omega arith))

  pub body_empty :
      (c : Cursor) (body : Bytes)
      → 4 ≤ c.len
      → read_string_body t c 0 body ≡ done none (cursor (drop 4 c.mem) (c.len - 4))
  unfolding read_string_body
  body_empty c body h = rw (ltb-false c.len (u32 (4 + 0)) h)

  pub body_text :
      (c : Cursor) (l : ℕ) (body : Bytes) {s : Bytes}
      → l ≢ 0
      → 4 + l < 2 ^ 32
      → 4 + l ≤ c.len
      → t.strndup body l ≡ some s
      → read_string_body t c l body ≡ done (some s) (cursor (drop (4 + l) c.mem) (c.len - (4 + l)))
  unfolding read_string_body
  body_text c l body ne b h e =
      let w : u32 (4 + l) ≡ 4 + l = omega arith in
      let z : (l == 0) ≡ false = ground arith in
      rw (ltb-false c.len (u32 (4 + l)) (omega arith), z, e) (rw w)

  empty_reads :
      (rest : Bytes) (n : ℕ)
      → 4 + n < 2 ^ 32
      → read_string t (cursor (put_be32 0 ++ rest) (4 + n)) ≡ done none (cursor rest n)
  empty_reads rest n h =
      read_string_step (cursor (put_be32 0 ++ rest) (4 + n)) (omega arith)
        (get_be32-put_be32 0 rest (omega arith))
      ∙ body_empty (cursor (put_be32 0 ++ rest) (4 + n)) rest (omega arith)
      ∙ ap₂ (λ m k. done none (cursor m k)) (drop_word 0 rest) (omega arith)

  text_reads :
      (s rest : Bytes) (n : ℕ)
      → IsText s
      → length s ≢ 0
      → 4 + length s + n < 2 ^ 32
      → read_string t (cursor (put_be32 (length s) ++ (s ++ rest)) (4 + length s + n))
        ≡ done (some s) (cursor rest n)
  text_reads s rest n v ne h =
      let c = cursor (put_be32 (length s) ++ (s ++ rest)) (4 + length s + n) in
      read_string_step c (omega arith) (get_be32-put_be32 (length s) (s ++ rest) (omega arith))
      ∙ body_text c (length s) (s ++ rest) ne (omega arith) (omega arith) (t.strndup_text s rest v)
      ∙ ap₂ (λ m k. done (some s) (cursor m k)) (drop_string (length s) s rest) (omega arith)

  read_string_reads :
      (s : CStr) (rest : Bytes) (n : ℕ)
      → IsString s
      → length (put_string s) + n < 2 ^ 32
      → read_string t (cursor (put_string s ++ rest) (length (put_string s) + n))
        ≡ done (received s) (cursor rest n)
  unfolding put_string received optional_strlen
  read_string_reads none rest n v h =
      rw (length-put_be32 0) (empty_reads rest n (omega (arith, length-put_be32 0)))
  read_string_reads (some []) rest n v h =
      let l : length (put_be32 0 ++ []) ≡ 4 = length-put_string (some []) in
      rw (append_assoc (put_be32 0) [] rest, l) (empty_reads rest n (omega arith))
  read_string_reads (some (c ∷ s)) rest n v h =
      let l : length (put_be32 (length (c ∷ s)) ++ (c ∷ s)) ≡ 4 + length (c ∷ s) =
        length-put_string (some (c ∷ s)) in
      rw (append_assoc (put_be32 (length (c ∷ s))) (c ∷ s) rest, l)
        (text_reads (c ∷ s) rest n v (omega arith) (omega arith))

  -- A cut behind the length word leaves fewer bytes than the word promises.
  read_string_strict :
      (s : Bytes) (p q : Bytes)
      → p ++ q ≡ put_be32 (length s) ++ s
      → q ≢ []
      → 4 + length s < 2 ^ 32
      → read_string t (cursor p (length p)) ≡ refused
  read_string_strict s p q e ne h = elim (cut_append p q (put_be32 (length s)) s e) [
    | inl (r, f, g) ↦
        read_string_short p (length p)
          (omega (arith, cut_shorter p r _ f g, length-put_be32 (length s)))
    | inr (r, f, g) ↦
        let c = cursor (put_be32 (length s) ++ r) (length (put_be32 (length s) ++ r)) in
        let l = length-append (put_be32 (length s)) r in
        let w = length-put_be32 (length s) in
        rw f (
          read_string_step c (omega arith) (get_be32-put_be32 (length s) r (omega arith))
          ∙ body_short c (length s) r h (omega (arith, cut_shorter r q s g ne)))
  ]

  -- A length word that the check lets pass, with less text behind it in memory.
  pub read_string_past :
      (l : ℕ) (body : Bytes) (n : ℕ)
      → l ≢ 0
      → l < 2 ^ 32
      → 4 ≤ n
      → u32 (4 + l) ≤ n
      → IsText body
      → length body < l
      → read_string t (cursor (put_be32 l ++ body) n) ≡ fault
  unfolding read_string_body
  read_string_past l body n ne w k h v short =
      let z : (l == 0) ≡ false = ground arith in
      read_string_step (cursor (put_be32 l ++ body) n) k (get_be32-put_be32 l body w)
      ∙ rw (ltb-false n (u32 (4 + l)) h, z, t.strndup_past body l v short)

  -- `read_string` reads what `pb_protocol_serialise_string` writes.
  pub read_string-Decodes :
      (s : CStr) → IsString s → Decodes (read_string t) (put_string s) (received s)
  unfolding put_string
  read_string-Decodes none v = record {
    reads = λ rest n h. read_string_reads none rest n v h;
    strict = λ p q e ne h.
        read_string_strict [] p q (e ∙ sym (append-nil (put_be32 0))) ne (omega arith);
  }
  read_string-Decodes (some s) v = record {
    reads = λ rest n h. read_string_reads (some s) rest n v h;
    strict = λ p q e ne h.
        read_string_strict s p q e ne
          (omega (arith, length-append (put_be32 (length s)) s, length-put_be32 (length s)));
  }

pub length-put_strings : (ss : List CStr) → length (put_all put_string ss) ≡ strings_len ss
unfolding put_all strings_len
length-put_strings [] = refl
length-put_strings (s ∷ ss) = omega (
  arith,
  length-append (put_string s) (put_all put_string ss),
  length-put_string s,
  length-put_strings ss,
)

-- Each string of an array takes its length word, so the count is below the bytes.
pub length-le-strings_len : (ss : List CStr) → length ss ≤ strings_len ss
unfolding strings_len
length-le-strings_len [] = omega arith
length-le-strings_len (s ∷ ss) = omega (arith, length-le-strings_len ss)

module _ (t : Talloc) where
  pub read_strdup-Decodes :
      (s : CStr) → IsString s → Decodes (read_strdup t) (put_string s) (received s)
  unfolding read_strdup
  read_strdup-Decodes s h =
      subst (λ a. Decodes (read_strdup t) (put_string s) a) (t.strdup_copy (received s))
        (last t.strdup (read_string-Decodes t s h))

  pub read_strings-Decodes :
      (ss : List CStr)
      → AreStrings ss
      → Decodes (read_n (length ss) (read_string t)) (put_all put_string ss) (map received ss)
  read_strings-Decodes ss h =
      read_n-Decodes (read_string t) put_string received ss
        (All-weaken (λ s v. read_string-Decodes t s v) ss h)

  pub read_strdups-Decodes :
      (ss : List CStr)
      → AreStrings ss
      → Decodes (read_n (length ss) (read_strdup t)) (put_all put_string ss) (map received ss)
  read_strdups-Decodes ss h =
      read_n-Decodes (read_strdup t) put_string received ss
        (All-weaken (λ s v. read_strdup-Decodes s v) ss h)
