-- ===== src/Interfaces/Tokens.antt =====
-- The tokens of a text: what strtok_r returns for texts between delimiters.
use petitboot.CString.{Lacks}
use petitboot.Base.{
  ℕ, ◌≡◌, refl, ap, ◌∙◌, true, false, List, [], ◌∷◌, ◌++◌, ◌==◌, Bytes, arith, inl, inr, ◌⊎◌,
  Bool-cases,
}
use petitboot.Interfaces.{cons_token, put_byte, fields, tokens}

-- Not empty, and without the byte.
abbrev pub IsPart : ℕ → Bytes → Type 0
IsPart delim [] = ⊥
IsPart delim (c ∷ s) = Lacks delim (c ∷ s)

-- Not empty, and without commas.
abbrev pub IsToken : Bytes → Type 0
IsToken s = IsPart 44 s

fields-Lacks : (delim : ℕ) (s : Bytes) → Lacks delim s → fields delim s ≡ (s, [])
unfolding fields
fields-Lacks delim [] h = refl
fields-Lacks delim (c ∷ s) (h, hs) = rw h (ap (λ r. (c ∷ r.0, r.1)) (fields-Lacks delim s hs))

pub tokens-IsPart : (delim : ℕ) (s : Bytes) → IsPart delim s → tokens delim s ≡ s ∷ []
unfolding tokens
tokens-IsPart delim [] h = absurd h
tokens-IsPart delim (c ∷ s) h = ap (λ r. cons_token r.0 r.1) (fields-Lacks delim (c ∷ s) h)

cons_token-append :
    (field : Bytes) (xs ys : List Bytes) → cons_token field (xs ++ ys) ≡ cons_token field xs ++ ys
cons_token-append [] xs ys = refl
cons_token-append (c ∷ field) xs ys = refl

==-self : (n : ℕ) → (n == n) ≡ true
==-self n = ground arith

fields-append :
    (delim : ℕ) (s rest : Bytes)
    → fields delim (s ++ delim ∷ rest)
      ≡ ((fields delim s).0, (fields delim s).1 ++ tokens delim rest)
unfolding fields tokens
fields-append delim [] rest = rw (==-self delim) refl
fields-append delim (c ∷ s) rest =
    ap (put_byte delim c) (fields-append delim s rest) ∙ split (Bool-cases (c == delim))
  where
    split :
        (c == delim ≡ true) ⊎ (c == delim ≡ false)
        → put_byte delim c ((fields delim s).0, (fields delim s).1 ++ tokens delim rest) ≡ (
          (put_byte delim c (fields delim s)).0,
          (put_byte delim c (fields delim s)).1 ++ tokens delim rest,
        )
    split (inl e) = rw e (
        ap (λ t. ([], t))
          (cons_token-append (fields delim s).0 (fields delim s).1 (tokens delim rest)))
    split (inr e) = rw e refl

-- A delimiter parts the tokens.
pub tokens-append-delim :
    (delim : ℕ) (s rest : Bytes)
    → tokens delim (s ++ delim ∷ rest) ≡ tokens delim s ++ tokens delim rest
unfolding tokens
tokens-append-delim delim s rest =
    ap (λ r. cons_token r.0 r.1) (fields-append delim s rest)
    ∙ cons_token-append (fields delim s).0 (fields delim s).1 (tokens delim rest)

pub tokens-IsToken : (s : Bytes) → IsToken s → tokens 44 s ≡ s ∷ []
tokens-IsToken s h = tokens-IsPart 44 s h

pub tokens-append : (s rest : Bytes) → IsToken s → tokens 44 (s ++ 44 ∷ rest) ≡ s ∷ tokens 44 rest
tokens-append s rest h =
    tokens-append-delim 44 s rest ∙ ap (◌++ tokens 44 rest) (tokens-IsToken s h)
