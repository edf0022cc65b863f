-- ===== src/ParamList.antt =====
-- lib/param_list: the ordered list of named parameters that the platforms keep. Copies of strings
-- are the strings; a value is never a null pointer here.
pub mod Lookup
use petitboot.CString.{strcmp_equal}
use petitboot.Base.{
  Bool, true, false, ◌&&◌, Option, none, some, List, [], ◌∷◌, Bytes, length, take, ◌==◌,
  if◌then◌else◌, ℕ,
}

pub record Param : Type 0 where
  pub name : Bytes
  pub value : Bytes
  pub modified : Bool

pub record ParamList : Type 0 where
  pub params : List Param
  pub known_params : List Bytes

unfoldable pub param_list_init : List Bytes → ParamList
param_list_init known = record { params = []; known_params = known }

-- The names that are left, compared with the first name_len bytes of `name`.
unfoldable pub known_n : List Bytes → Bytes → ℕ → Bool
known_n [] name name_len = false
known_n (known ∷ rest) name name_len =
    if (name_len == length known) && strcmp_equal (take name_len name) known
    then true
    else known_n rest name name_len

unfoldable pub param_list_is_known_n : ParamList → Bytes → ℕ → Bool
param_list_is_known_n pl name name_len = known_n pl.known_params name name_len

unfoldable pub known : List Bytes → Bytes → Bool
known [] name = false
known (k ∷ rest) name = if strcmp_equal name k then true else known rest name

unfoldable pub param_list_is_known : ParamList → Bytes → Bool
param_list_is_known pl name = known pl.known_params name

unfoldable pub find_param : List Param → Bytes → Option Param
find_param [] name = none
find_param (p ∷ ps) name = if strcmp_equal p.name name then some p else find_param ps name

unfoldable pub param_list_get_param : ParamList → Bytes → Option Param
param_list_get_param pl name = find_param pl.params name

unfoldable pub param_list_get_value : ParamList → Bytes → Option Bytes
param_list_get_value pl name = elim (param_list_get_param pl name) [
  | none ↦ none
  | some p ↦ some p.value
]

-- What the loop does to the entry that it finds.
abbrev pub updated : Param → Bytes → Param
updated p value =
    if strcmp_equal p.value value then p else record p { value = value; modified = true }

-- The loop; none when no entry has the name.
unfoldable pub update_param : List Param → Bytes → Bytes → Option (List Param)
update_param [] name value = none
update_param (p ∷ ps) name value =
    if strcmp_equal p.name name
    then some (updated p value ∷ ps)
    else elim (update_param ps name value) [ none ↦ none | some qs ↦ some (p ∷ qs) ]

-- The end of param_list_set: the list after the loop, or a new entry in front.
abbrev pub set_or_add : ParamList → Param → Option (List Param) → ParamList
set_or_add pl new (some ps) = record pl { params = ps }
set_or_add pl new none = record pl { params = new ∷ pl.params }

unfoldable pub param_list_set : ParamList → Bytes → Bytes → Bool → ParamList
param_list_set pl name value modified_on_create =
    set_or_add pl (record { name = name; value = value; modified = modified_on_create })
      (update_param pl.params name value)

unfoldable pub param_list_set_non_empty : ParamList → Bytes → Bytes → Bool → ParamList
param_list_set_non_empty pl name value modified_on_create = elim (param_list_get_value pl name) [
  | none ↦ elim value [ [] ↦ pl | c ∷ s ↦ param_list_set pl name (c ∷ s) modified_on_create ]
  | some old ↦ param_list_set pl name value modified_on_create
]
