-- ===== src/Protocol/Codec.antt =====
-- Rules for a reader that meets the bytes of a writer.
pub mod Fields
pub mod Strings
pub mod Messages
pub mod Bounds
use mathlib.Core.List.{append-nil, append_assoc, map}
use mathlib.Core.Path.{subst}
use petitboot.Base.{
  ℕ, ◌+◌, ◌^◌, ◌<◌, ◌≡◌, ◌≢◌, ap, refl, ◌∙◌, inl, inr, List, [], ◌∷◌, ◌++◌, arith, Bytes, length,
  length-append, cut_append, All,
}
use petitboot.Protocol.Words.{put_all}
use petitboot.Protocol.Reader.{
  Cursor, cursor, Outcome, done, refused, fault, Reader, ◌>>=◌, pure, read_n,
}

-- `m` reads the bytes `out` as `a` and stops right behind them, whatever follows; and of a block
-- that ends inside `out`, with the counter at the block's end, it refuses every cut.
pub record Decodes {A : Type 0} (m : Reader A) (out : Bytes) (a : A) : Type 0 where
  pub reads :
      (rest : Bytes) (n : ℕ)
      → length out + n < 2 ^ 32
      → m (cursor (out ++ rest) (length out + n)) ≡ done a (cursor rest n)
  pub strict :
      (p q : Bytes)
      → p ++ q ≡ out
      → q ≢ []
      → length out < 2 ^ 32
      → m (cursor p (length p)) ≡ refused

pub >>=-done :
    {A B : Type 0} (m : Reader A) (f : A → Reader B) {c c' : Cursor} {a : A}
    → m c ≡ done a c'
    → (m >>= f) c ≡ f a c'
unfolding ◌>>=◌
>>=-done m f e = rw (e, ◌>>=◌)

pub >>=-refused :
    {A B : Type 0} (m : Reader A) (f : A → Reader B) {c : Cursor}
    → m c ≡ refused
    → (m >>= f) c ≡ refused
unfolding ◌>>=◌
>>=-refused m f e = rw (e, ◌>>=◌)

pub >>=-fault :
    {A B : Type 0} (m : Reader A) (f : A → Reader B) {c : Cursor}
    → m c ≡ fault
    → (m >>= f) c ≡ fault
unfolding ◌>>=◌
>>=-fault m f e = rw (e, ◌>>=◌)

module _ {A B : Type 0} {m : Reader A} (f : A → Reader B) {x y : Bytes} {a : A} {b : B} where
  pub seq : Decodes m x a → Decodes (f a) y b → Decodes (m >>= f) (x ++ y) b
  seq d e = record {
    reads = λ rest n h.
        let h' : length x + length y + n < 2 ^ 32 = omega (arith, length-append x y) in
        let l : length (x ++ y) + n ≡ length x + (length y + n) =
          omega (arith, length-append x y) in
        rw (append_assoc x y rest, l)
          (>>=-done _ f (d.reads (y ++ rest) (length y + n) (omega arith))
            ∙ e.reads rest n (omega arith));
    strict = λ p q s ne h. elim (cut_append p q x y s) [
      | inl (r, in_x, ne') ↦
          >>=-refused _ f (d.strict p r in_x ne' (omega (arith, length-append x y)))
      | inr (s', p_eq, in_y) ↦
          let l : length (x ++ s') ≡ length x + length s' = length-append x s' in
          let k = length-append x y in
          let k' = ap length in_y in
          let k'' = length-append s' q in
          rw (p_eq, l)
            (>>=-done _ f (d.reads s' (length s') (omega arith))
              ∙ e.strict s' q in_y ne (omega arith))
    ];
  }

-- As `Decodes.reads`, for a reader that steps over `d` bytes more than it takes off the counter.
pub record Reads {A : Type 0} (d : ℕ) (m : Reader A) (out : Bytes) (a : A) : Type 0 where
  pub leaves :
      (rest : Bytes) (n : ℕ)
      → length out + n + d < 2 ^ 32
      → m (cursor (out ++ rest) (length out + n)) ≡ done a (cursor rest (n + d))

pub Decodes-Reads : {A : Type 0} {m : Reader A} {x : Bytes} {a : A} → Decodes m x a → Reads 0 m x a
Decodes-Reads {a} d = record {
  leaves =
      λ rest n h. d.reads rest n (omega arith) ∙ ap (λ k. done a (cursor rest k)) (omega arith);
}

module _ {A B : Type 0} {m : Reader A} (f : A → Reader B) {x y : Bytes} {a : A} {b : B}
    {d e : ℕ} where
  pub Reads-seq : Reads d m x a → Reads e (f a) y b → Reads (d + e) (m >>= f) (x ++ y) b
  Reads-seq r s = record {
    leaves = λ rest n h.
        let l : length (x ++ y) + n ≡ length x + (length y + n) =
          omega (arith, length-append x y) in
        let g : length y + n + d ≡ length y + (n + d) = omega arith in
        let k : n + d + e ≡ n + (d + e) = omega arith in
        rw (append_assoc x y rest, l)
          (>>=-done _ f (r.leaves (y ++ rest) (length y + n) (omega (arith, length-append x y)))
            ∙ ap (λ k. f a (cursor (y ++ rest) k)) g
            ∙ s.leaves rest (n + d) (omega (arith, length-append x y))
            ∙ ap (λ k. done b (cursor rest k)) k);
  }

-- One field of a message that goes on behind it.
pub Decodes-step :
    {A B : Type 0} {m : Reader A} (f : A → Reader B) {x : Bytes} {a : A} (rest : Bytes)
    → Decodes m x a
    → length (x ++ rest) < 2 ^ 32
    → (m >>= f) (cursor (x ++ rest) (length (x ++ rest))) ≡ f a (cursor rest (length rest))
Decodes-step {m} f {x} rest d h =
    let l = length-append x rest in
    >>=-done _ f (ap (λ k. m (cursor (x ++ rest) k)) l ∙ d.reads rest (length rest) (omega arith))

-- How a reader ends on a block that its counter spans.
pub record Ends {A : Type 0} (m : Reader A) (out : Bytes) (r : Outcome A) : Type 0 where
  pub ends : length out < 2 ^ 32 → m (cursor out (length out)) ≡ r

module _ {A B : Type 0} {m : Reader A} (f : A → Reader B) {x y : Bytes} {a : A}
    {r : Outcome B} where
  pub Ends-seq : Decodes m x a → Ends (f a) y r → Ends (m >>= f) (x ++ y) r
  Ends-seq d e = record {
    ends = λ h. Decodes-step f y d h ∙ e.ends (omega (arith, length-append x y));
  }

-- Behind the last field nothing is left to read.
pub pure-Decodes : {A : Type 0} (a : A) → Decodes (pure a) [] a
unfolding pure
pure-Decodes a = record {
  reads = λ rest n h. ap (λ k. done a (cursor rest k)) (omega arith);
  strict = λ p q s ne h. absurd (no_cut p q s ne);
}
  where
    no_cut : (p q : Bytes) → p ++ q ≡ [] → q ≢ [] → ⊥
    no_cut [] q s ne = ne s
    no_cut (x ∷ p) q s ne = cc

module _ {A B : Type 0} {m : Reader A} (g : A → B) {x : Bytes} {a : A} {d : ℕ} where
  pub Reads-last : Reads d m x a → Reads d (m >>= λ v. pure (g v)) x (g a)
  Reads-last r = record {
    leaves =
        λ rest n h. >>=-done _ (λ v. pure (g v)) (r.leaves rest n h) ∙ pure_at (g a) rest (n + d);
  }
    where
      pure_at : (b : B) (rest : Bytes) (n : ℕ) → pure b (cursor rest n) ≡ done b (cursor rest n)
      pure_at b rest n = unfold pure in refl

-- The last field of a structure: nothing is written behind it.
module _ {A B : Type 0} {m : Reader A} (g : A → B) {x : Bytes} {a : A} where
  pub last : Decodes m x a → Decodes (m >>= λ v. pure (g v)) x (g a)
  last d =
      subst (λ y. Decodes (m >>= λ v. pure (g v)) y (g a)) (append-nil x)
        (seq (λ v. pure (g v)) d (pure-Decodes (g a)))

-- `for (i = 0; i < n; i++)` over the items of a list.
module _ {A S : Type 0} (m : Reader A) (put : S → Bytes) (value : S → A) where
  pub read_n-Decodes :
      (xs : List S)
      → All (λ x. Decodes m (put x) (value x)) xs
      → Decodes (read_n (length xs) m) (put_all put xs) (map value xs)
  unfolding read_n put_all
  read_n-Decodes [] h = pure-Decodes []
  read_n-Decodes (x ∷ xs) h = seq _ h.0 (last (λ v. value x ∷ v) (read_n-Decodes xs h.1))

pub Reads-cast :
    {A : Type 0} {m : Reader A} {out : Bytes} {a : A} {d e : ℕ}
    → d ≡ e
    → Reads d m out a
    → Reads e m out a
Reads-cast {m} {out} {a} p r = subst (λ k. Reads k m out a) p r

-- The loop over items that each leave one byte too many on the counter.
module _ {A S : Type 0} (m : Reader A) (put : S → Bytes) (value : S → A) where
  pub read_n-Reads :
      (xs : List S)
      → All (λ x. Reads 1 m (put x) (value x)) xs
      → Reads (length xs) (read_n (length xs) m) (put_all put xs) (map value xs)
  unfolding read_n put_all
  read_n-Reads [] h = Decodes-Reads (pure-Decodes [])
  read_n-Reads (x ∷ xs) h =
      Reads-cast (omega arith)
        (Reads-seq _ h.0 (Reads-last (λ v. value x ∷ v) (read_n-Reads xs h.1)))
