-- ===== src/ParserConf.antt =====
-- discover/parser-conf.c: names and values in a configuration file. A string in a buffer comes
-- with `before`, the bytes in front of it, the nearest first: conf_strip_str can read them. A
-- missing result is a load in front of the buffer. Delimiters and terminators are not zero.
pub mod Pairs
use petitboot.Base.Options.{◌>>=◌}
use petitboot.CString.{split_at}
use petitboot.Talloc.{CStr}
use petitboot.Base.{
  ℕ, zero, suc, Bool, true, false, ◌||◌, ◌&&◌, Option, none, some, List, [], ◌∷◌, ◌++◌, ◌==◌, leb,
  if◌then◌else◌, Bytes, length, map,
}

-- `c == '"' || c == '\'' || isspace(c)` in the C locale.
abbrev pub is_strip : ℕ → Bool
is_strip c = (c == 34) || ((c == 39) || ((c == 32) || (leb 9 c && leb c 13)))

-- The first loop of conf_strip_str: the bytes in front, and the string from `s`.
unfoldable pub strip_front : Bytes → Bytes → Bytes × Bytes
strip_front before [] = (before, [])
strip_front before (c ∷ s) = if is_strip c then strip_front (c ∷ before) s else (before, c ∷ s)

-- A byte in front of what is left: whether the second loop reaches it, and sets it to zero.
abbrev pub keep_byte : Bool → ℕ → Bytes → Bytes
keep_byte true c [] = []
keep_byte true c (d ∷ s) = c ∷ d ∷ s
keep_byte false c s = c ∷ s

-- The string without the bytes that the second loop sets to zero.
unfoldable pub strip_back : Bytes → Bytes
strip_back [] = []
strip_back (c ∷ s) = keep_byte (is_strip c) c (strip_back s)

-- The second loop on an empty string goes on in front of it: whether it ends in the buffer.
unfoldable pub ends_before : Bytes → Bool
ends_before [] = false
ends_before (c ∷ before) = if is_strip c then ends_before before else true

abbrev pub stripped : Bytes → Bytes → Option CStr
stripped before [] = if ends_before before then some none else none
stripped before (c ∷ s) = some (some (strip_back (c ∷ s)))

unfoldable pub conf_strip_str : Bytes → CStr → Option CStr
conf_strip_str before none = some none
conf_strip_str before (some []) = some none
conf_strip_str before (some (c ∷ s)) =
    let (before', s') = strip_front before (c ∷ s) in stripped before' s'

unfoldable pub conf_replace_char : Bytes → ℕ → ℕ → Bytes
conf_replace_char s from to = map (λ c. if c == from then to else c) s

-- The outputs of conf_get_pair, and its result: the text to go on with.
pub record Pair : Type 0 where
  pub name : CStr
  pub value : CStr
  pub next : Option Bytes

-- Up to the terminator, which is set to zero, or the whole string.
unfoldable pub terminate : ℕ → Bytes → Bytes × Option Bytes
terminate terminator str = elim (split_at terminator str) [
  | none ↦ (str, none)
  | some (line, rest) ↦ (line, some rest)
]

-- The stripped text at its delimiter. The byte in front of the value is zero by now.
unfoldable pub split_pair : ℕ → Option Bytes → CStr → Option Pair
split_pair delimiter next none = some (record { name = none; value = none; next = next })
split_pair delimiter next (some text) = elim (split_at delimiter text) [
  | none ↦ do
    value ← conf_strip_str [] (some text)
    some (record { name = none; value = value; next = next })
  | some (left, right) ↦ do
    name ← conf_strip_str [] (some left)
    value ← conf_strip_str (0 ∷ []) (some right)
    some (record { name = name; value = value; next = next })
]

unfoldable pub conf_get_pair : ℕ → ℕ → Bytes → Bytes → Option Pair
conf_get_pair delimiter terminator before str =
    let (line, next) = terminate terminator str in
    do
      text ← conf_strip_str before (some (conf_replace_char line 9 32))
      split_pair delimiter next text

abbrev pub starts_comment : Bytes → Bool
starts_comment [] = false
starts_comment (c ∷ s) = c == 35

abbrev pub named_comment : CStr → Bool
named_comment none = false
named_comment (some name) = starts_comment name

-- What conf_parse_buf does with a pair: the arguments of its call of process_pair, if it makes one.
abbrev pub processed : CStr → CStr → List (CStr × Bytes)
processed name none = []
processed name (some value) =
    if named_comment name then [] else if starts_comment value then [] else (name, value) ∷ []

-- The loop of conf_parse_buf with one of the two get_pair functions: the calls of process_pair.
-- Each round but the last takes the terminator off the text, so its length is fuel enough.
unfoldable pub parse_pairs : ℕ → ℕ → Bytes → Bytes → Option (List (CStr × Bytes))
parse_pairs zero delimiter before pos = none
parse_pairs (suc fuel) delimiter before pos = do
  pair ← conf_get_pair delimiter 10 before pos
  later ← elim pair.next [ none ↦ some [] | some rest ↦ parse_pairs fuel delimiter (0 ∷ []) rest ]
  some (processed pair.name pair.value ++ later)

unfoldable pub conf_parse_buf : ℕ → Bytes → Option (List (CStr × Bytes))
conf_parse_buf delimiter buf = parse_pairs (suc (length buf)) delimiter [] buf
