-- ===== src/ParserConf/Pairs.antt =====
-- Names and values that the parser finds in printed lines, and blank text.
use mathlib.Core.Path.{ap₂}
use mathlib.Core.List.{append_assoc, append-nil}
use petitboot.Base.Options.{◌>>=◌}
use petitboot.CString.{split_at, Lacks, split_at-append}
use petitboot.Talloc.{CStr}
use petitboot.Base.{
  ℕ, zero, suc, ◌<◌, ◌≡◌, ◌≢◌, refl, sym, ap, ◌∙◌, Bool, true, false, Option, none, some, List, [],
  ◌∷◌, ◌++◌, if◌then◌else◌, Bytes, length, length-append, map, All, arith,
}
use petitboot.ParserConf.{
  is_strip, keep_byte, strip_front, strip_back, ends_before, stripped, conf_strip_str,
  conf_replace_char, Pair, terminate, split_pair, conf_get_pair, starts_comment, processed,
  parse_pairs, conf_parse_buf,
}

-- White space and quotes only.
abbrev pub IsBlank : Bytes → Type 0
IsBlank = All (λ c. is_strip c ≡ true)

abbrev Head : Bytes → Type 0
Head [] = ⊥
Head (c ∷ s) = is_strip c ≡ false

-- Not empty, and neither the first nor the last byte is white space or a quote.
abbrev pub IsTrimmed : Bytes → Type 0
IsTrimmed s = Head s × (strip_back s ≡ s)

strip_front-append :
    (before p s : Bytes)
    → IsBlank p
    → Head s
    → (before' : Bytes) × (strip_front before (p ++ s) ≡ (before', s))
unfolding strip_front
strip_front-append before [] [] h e = absurd e
strip_front-append before [] (c ∷ s) h e = (before, rw e refl)
strip_front-append before (c ∷ p) s (h, hs) e =
    let (before', same) = strip_front-append (c ∷ before) p s hs e in (before', rw h same)

strip_back-IsBlank : (q : Bytes) → IsBlank q → strip_back q ≡ []
unfolding strip_back
strip_back-IsBlank [] h = refl
strip_back-IsBlank (c ∷ q) (h, hs) = rw (h, strip_back-IsBlank q hs) refl

strip_back-append : (s q : Bytes) → IsBlank q → strip_back (s ++ q) ≡ strip_back s
unfolding strip_back
strip_back-append [] q h = strip_back-IsBlank q h
strip_back-append (c ∷ s) q h = rw (strip_back-append s q h) refl

-- A text that ends in a trimmed one keeps its end.
strip_back-IsTrimmed : (x s : Bytes) → IsTrimmed s → strip_back (x ++ s) ≡ x ++ s
unfolding strip_back
strip_back-IsTrimmed [] s (e, same) = same
strip_back-IsTrimmed (c ∷ x) [] (e, same) = absurd e
strip_back-IsTrimmed (c ∷ x) (d ∷ s) h =
    ap (keep_byte (is_strip c) c) (strip_back-IsTrimmed x (d ∷ s) h) ∙ kept (is_strip c) x
  where
    kept : (b : Bool) (x : Bytes) → keep_byte b c (x ++ d ∷ s) ≡ c ∷ (x ++ d ∷ s)
    kept true [] = refl
    kept true (y ∷ x) = refl
    kept false x = refl

-- A trimmed text comes out of blanks.
conf_strip_str-IsTrimmed :
    (before p s q : Bytes)
    → IsBlank p
    → IsTrimmed s
    → IsBlank q
    → conf_strip_str before (some (p ++ (s ++ q))) ≡ some (some s)
conf_strip_str-IsTrimmed before p [] q hp h hq = absurd h.0
conf_strip_str-IsTrimmed before p (c ∷ s) q hp h hq =
    let (before', front) = strip_front-append before p (c ∷ (s ++ q)) hp h.0 in
    begun before p (c ∷ (s ++ q)) (shape p)
    ∙ ap (λ r. stripped r.0 r.1) front
    ∙ ap (λ t. some (some t)) (strip_back-append (c ∷ s) q hq ∙ h.1)
  where
    shape : (p : Bytes) → (p ++ c ∷ (s ++ q)) ≢ []
    shape [] e = cc
    shape (y ∷ p) e = cc

    begun :
        (before p t : Bytes)
        → (p ++ t) ≢ []
        → conf_strip_str before (some (p ++ t))
          ≡ stripped (strip_front before (p ++ t)).0 (strip_front before (p ++ t)).1
    begun before [] [] ne = absurd (ne refl)
    begun before [] (x ∷ t) ne = unfold conf_strip_str in refl
    begun before (x ∷ p) t ne = unfold conf_strip_str in refl

-- Blank text that nothing but blanks precedes in the buffer is read past the buffer's front.
pub conf_strip_str-IsBlank :
    (before s : Bytes) (c : ℕ)
    → IsBlank before
    → IsBlank (c ∷ s)
    → conf_strip_str before (some (c ∷ s)) ≡ none
unfolding conf_strip_str strip_front ends_before
conf_strip_str-IsBlank before s c hb (h, hs) = rw h (all before s c hb h hs)
  where
    gone : (b : Bytes) → IsBlank b → ends_before b ≡ false
    gone [] h = refl
    gone (x ∷ b) (h, hs) = rw h (gone b hs)

    all :
        (before s : Bytes) (c : ℕ)
        → IsBlank before
        → is_strip c ≡ true
        → IsBlank s
        → stripped (strip_front (c ∷ before) s).0 (strip_front (c ∷ before) s).1 ≡ none
    all before [] c hb h hs = rw (h, gone before hb) refl
    all before (x ∷ s) c hb h (hx, hs) = rw hx (all (c ∷ before) s x (h, hb) hx hs)

-- A line with a name and a value: blanks in front, the name, blanks before the delimiter, blanks
-- behind it, the value, and blanks at the end.
pub record Line : Type 0 where
  pub front : Bytes
  pub name : Bytes
  pub after_name : Bytes
  pub before_value : Bytes
  pub value : Bytes
  pub back : Bytes

-- The part that is left of the line when it is stripped.
abbrev core : ℕ → Line → Bytes
core d l = (l.name ++ l.after_name) ++ d ∷ (l.before_value ++ l.value)

abbrev pub line_text : ℕ → Line → Bytes
line_text d l = l.front ++ (core d l ++ l.back)

-- The blanks are blanks, name and value are trimmed, the first delimiter is the one between them,
-- and there is no tab and no terminator on the line.
pub record IsLine (d t : ℕ) (l : Line) : Type 0 where
  pub front : IsBlank l.front
  pub name : IsTrimmed l.name
  pub after_name : IsBlank l.after_name
  pub before_value : IsBlank l.before_value
  pub value : IsTrimmed l.value
  pub back : IsBlank l.back
  pub delimiter : Lacks d (l.name ++ l.after_name)
  pub terminator : Lacks t (line_text d l)
  pub tabs : Lacks 9 (line_text d l)

conf_replace_char-Lacks : (s : Bytes) (from to : ℕ) → Lacks from s → conf_replace_char s from to ≡ s
unfolding conf_replace_char
conf_replace_char-Lacks [] from to h = refl
conf_replace_char-Lacks (c ∷ s) from to (h, hs) =
    rw h (ap (◌∷◌ c) (conf_replace_char-Lacks s from to hs))

Head-append : (s r : Bytes) → Head s → Head (s ++ r)
Head-append [] r h = absurd h
Head-append (c ∷ s) r h = h

module _ (d : ℕ) (l : Line) where
  core-IsTrimmed : {t : ℕ} → IsLine d t l → IsTrimmed (core d l)
  core-IsTrimmed h =
      let whole : core d l ≡ ((l.name ++ l.after_name) ++ d ∷ l.before_value) ++ l.value =
        sym (append_assoc (l.name ++ l.after_name) (d ∷ l.before_value) l.value) in
      (
        Head-append (l.name ++ l.after_name) (d ∷ (l.before_value ++ l.value))
            (Head-append l.name l.after_name h.name.0),
        ap strip_back whole
            ∙ strip_back-IsTrimmed ((l.name ++ l.after_name) ++ d ∷ l.before_value) l.value h.value
            ∙ sym whole,
      )

  split_pair-core :
      {t : ℕ} (next : Option Bytes)
      → IsLine d t l
      → split_pair d next (some (core d l))
        ≡ some (record { name = some l.name; value = some l.value; next = next })
  unfolding split_pair
  split_pair-core next h =
      ap parts (split_at-append d (l.name ++ l.after_name) (l.before_value ++ l.value) h.delimiter)
      ∙ ap₂ both (conf_strip_str-IsTrimmed [] [] l.name l.after_name tt h.name h.after_name) (
          ap (λ v. conf_strip_str (0 ∷ []) (some (l.before_value ++ v))) (sym (append-nil l.value))
          ∙ conf_strip_str-IsTrimmed (0 ∷ []) l.before_value l.value [] h.before_value h.value tt)
    where
      both : Option CStr → Option CStr → Option Pair
      both name value = do n ← name; v ← value; some (record { name = n; value = v; next = next })

      parts : Option (Bytes × Bytes) → Option Pair
      parts none = do
        value ← conf_strip_str [] (some (core d l))
        some (record { name = none; value = value; next = next })
      parts (some (left, right)) =
          both (conf_strip_str [] (some left)) (conf_strip_str (0 ∷ []) (some right))

  -- A line of a name and a value gives both without the blanks around them, and the text behind
  -- its terminator to go on with.
  conf_get_pair-line_text :
      (t : ℕ) (before rest : Bytes)
      → IsLine d t l
      → conf_get_pair d t before (line_text d l ++ t ∷ rest)
        ≡ some (record { name = some l.name; value = some l.value; next = some rest })
  unfolding conf_get_pair terminate
  conf_get_pair-line_text t before rest h =
      ap (λ r. go (ended r)) (split_at-append t (line_text d l) rest h.terminator)
      ∙ ap (λ s. next (some rest) (conf_strip_str before (some s)))
          (conf_replace_char-Lacks (line_text d l) 9 32 h.tabs)
      ∙ ap (next (some rest)) (
          conf_strip_str-IsTrimmed before l.front (core d l) l.back h.front (core-IsTrimmed h)
            h.back)
      ∙ split_pair-core (some rest) h
    where
      ended : Option (Bytes × Bytes) → Bytes × Option Bytes
      ended none = (line_text d l ++ t ∷ rest, none)
      ended (some (line, behind)) = (line, some behind)

      next : Option Bytes → Option CStr → Option Pair
      next behind stripped_text = do text ← stripped_text; split_pair d behind text

      go : Bytes × Option Bytes → Option Pair
      go r = next r.1 (conf_strip_str before (some (conf_replace_char r.0 9 32)))

-- A file of such lines.
unfoldable pub file_text : ℕ → List Line → Bytes
file_text d [] = []
file_text d (l ∷ ls) = line_text d l ++ 10 ∷ file_text d ls

-- A line that is no comment.
abbrev pub IsEntry : ℕ → Line → Type 0
IsEntry d l = IsLine d 10 l × (starts_comment l.name ≡ false) × (starts_comment l.value ≡ false)

abbrev pub entry : Line → CStr × Bytes
entry l = (some l.name, l.value)

-- The end of the text: a pair of nothing.
parse_end : (fuel d : ℕ) (before : Bytes) → parse_pairs (suc fuel) d before [] ≡ some []
unfolding parse_pairs conf_get_pair terminate split_at conf_replace_char conf_strip_str split_pair
parse_end fuel d before = refl

parse_pairs-file_text :
    (fuel d : ℕ) (before : Bytes) (ls : List Line)
    → length (file_text d ls) < fuel
    → All (IsEntry d) ls
    → parse_pairs fuel d before (file_text d ls) ≡ some (map entry ls)
unfolding file_text
parse_pairs-file_text zero d before ls room h = absurd (omega arith)
parse_pairs-file_text (suc fuel) d before [] room h = parse_end fuel d before
parse_pairs-file_text (suc fuel) d before (l ∷ ls) room ((line, no_name, no_value), hs) =
    let later =
      parse_pairs-file_text fuel d (0 ∷ []) ls
        (omega (arith, length-append (line_text d l) (10 ∷ file_text d ls))) hs in
    first fuel d before l (file_text d ls) line ∙ ap₂ joined (ap₂ calls no_name no_value) later
  where
    calls : Bool → Bool → List (CStr × Bytes)
    calls c v = if c then [] else if v then [] else entry l ∷ []

    joined : List (CStr × Bytes) → Option (List (CStr × Bytes)) → Option (List (CStr × Bytes))
    joined now rest = do later ← rest; some (now ++ later)

    first :
        (fuel d : ℕ) (before : Bytes) (l : Line) (rest : Bytes)
        → IsLine d 10 l
        → parse_pairs (suc fuel) d before (line_text d l ++ 10 ∷ rest)
          ≡ joined (processed (some l.name) (some l.value)) (parse_pairs fuel d (0 ∷ []) rest)
    first fuel d before l rest line =
        unfold parse_pairs in ap step (conf_get_pair-line_text d l 10 before rest line)
      where
        step : Option Pair → Option (List (CStr × Bytes))
        step pair = do
          p ← pair
          later ← elim p.next [ none ↦ some [] | some more ↦ parse_pairs fuel d (0 ∷ []) more ]
          some (processed p.name p.value ++ later)

-- The parser of a file whose lines have a name and a value each, with blanks around them and no
-- tab, ends, and calls process_pair with the name and the value of every line in order, if no line
-- is a comment. Name and value are not empty and neither begin nor end with white space or a quote,
-- and the first delimiter of the line is the one between them.
pub conf_parse_buf-file_text :
    (d : ℕ) (ls : List Line)
    → All (IsEntry d) ls
    → conf_parse_buf d (file_text d ls) ≡ some (map entry ls)
unfolding conf_parse_buf
conf_parse_buf-file_text d ls h = parse_pairs-file_text _ d [] ls (omega arith) h
