-- ===== src/ParamList/Lookup.antt =====
-- What a parameter is after param_list_set, and that the names stay distinct.
use mathlib.Core.Path.{subst}
use petitboot.CString.{strcmp_equal, strcmp_equal-eq}
use petitboot.Base.{
  ◌≡◌, refl, sym, ◌∙◌, ap, Bool, true, false, Option, none, some, List, [], ◌∷◌, Bytes,
  if◌then◌else◌, ◌⊎◌, inl, inr, Bool-cases, arith,
}
use petitboot.ParamList.{
  Param, ParamList, find_param, param_list_get_param, updated, update_param, set_or_add,
  param_list_set,
}

-- The entry that a write leaves for its name: it has the value, and a mark that is the given one on
-- a new entry, stays on an entry that had the value, and is set on an entry that had another.
abbrev pub written : Option Param → Bytes → Bytes → Bool → Param
written none name value m = record { name = name; value = value; modified = m }
written (some p) name value m = record {
  name = p.name;
  value = value;
  modified = if strcmp_equal p.value value then p.modified else true;
}

updated-written :
    (p : Param) (name value : Bytes) (m : Bool) → updated p value ≡ written (some p) name value m
updated-written p name value m = elim (Bool-cases (strcmp_equal p.value value)) [
  | inl same ↦ rw same (ap (λ v. record p { value = v }) (strcmp_equal-eq p.value value same))
  | inr other ↦ rw other refl
]

module _ (name value : Bytes) where
  updated-name : (p : Param) → (updated p value).name ≡ p.name
  updated-name p = elim (Bool-cases (strcmp_equal p.value value)) [
    | inl same ↦ ground arith
    | inr other ↦ ground arith
  ]

  -- The two outcomes of the loop, with the lookups after it.
  abbrev Loop : List Param → Type 0
  Loop ps =
      ((update_param ps name value ≡ none) × (find_param ps name ≡ none))
      ⊎ ((qs : List Param) × (old : Param) × (update_param ps name value ≡ some qs)
          × (find_param ps name ≡ some old)
          × ((j : Bytes)
              → find_param qs j
                ≡ (if strcmp_equal name j then some (updated old value) else find_param ps j)))

  -- The first entry is the one.
  found_here :
      (p : Param) (ps : List Param)
      → strcmp_equal p.name name ≡ true
      → (j : Bytes)
      → find_param (updated p value ∷ ps) j
        ≡ (if strcmp_equal name j then some (updated p value) else find_param (p ∷ ps) j)
  unfolding find_param
  found_here p ps e j =
      let same = strcmp_equal-eq p.name name e in
      let first = updated-name p in
      elim (Bool-cases (strcmp_equal name j)) [
        | inl hit ↦
            ground (arith, ap (λ s. strcmp_equal s j) same, ap (λ s. strcmp_equal s j) first)
        | inr miss ↦
            ground (arith, ap (λ s. strcmp_equal s j) same, ap (λ s. strcmp_equal s j) first)
      ]

  -- It is further on.
  found_there :
      (p old : Param) (ps qs : List Param)
      → strcmp_equal p.name name ≡ false
      → (j : Bytes)
      → find_param qs j
        ≡ (if strcmp_equal name j then some (updated old value) else find_param ps j)
      → find_param (p ∷ qs) j
        ≡ (if strcmp_equal name j then some (updated old value) else find_param (p ∷ ps) j)
  unfolding find_param
  found_there p old ps qs e j h = elim (Bool-cases (strcmp_equal name j)) [
    | inl hit ↦ elim (Bool-cases (strcmp_equal p.name j)) [
      | inl both ↦ absurd (false_true (sym e ∙ clash p.name j both (strcmp_equal-eq name j hit)))
      | inr other ↦ ground arith
    ]
    | inr miss ↦ ground arith
  ]
    where
      clash : (s j : Bytes) → strcmp_equal s j ≡ true → name ≡ j → strcmp_equal s name ≡ true
      clash s j both hit = ap (strcmp_equal s) hit ∙ both

      false_true : false ≡ true → ⊥
      false_true h = cc

  loop : (ps : List Param) → Loop ps
  unfolding update_param find_param
  loop [] = inl (refl, refl)
  loop (p ∷ ps) = elim (Bool-cases (strcmp_equal p.name name)) [
    | inl hit ↦ inr (updated p value ∷ ps, p, ground arith, ground arith, found_here p ps hit)
    | inr miss ↦ elim (loop ps) [
      | inl (none_there, no_entry) ↦ inl (ground arith, ground arith)
      | inr (qs, old, there, entry, h) ↦
          inr (p ∷ qs, old, ground arith, ground arith, λ j. found_there p old ps qs miss j (h j))
    ]
  ]

-- After a write, a lookup of the written name finds the entry with the value: the old entry as it
-- was when it had the value, marked as modified when it had another one, or a new entry with the
-- given mark. A lookup of any other name finds what it found before.
pub param_list_get_param-param_list_set :
    (pl : ParamList) (name value : Bytes) (m : Bool) (j : Bytes)
    → param_list_get_param (param_list_set pl name value m) j ≡ (
        if strcmp_equal name j
        then some (written (param_list_get_param pl name) name value m)
        else param_list_get_param pl j)
unfolding param_list_get_param param_list_set find_param
param_list_get_param-param_list_set pl name value m j = elim (loop name value pl.params) [
  | inl (none_there, no_entry) ↦ ground arith
  | inr (qs, old, there, entry, h) ↦ ground (arith, h j, updated-written old name value m)
]

-- No two entries have the same name.
abbrev pub Distinct : List Param → Type 0
Distinct [] = Unit
Distinct (p ∷ ps) = (find_param ps p.name ≡ none) × Distinct ps

-- A loop that ran keeps distinct names, and adds none.
abbrev Kept : List Param → Option (List Param) → Type 0
Kept ps none = Unit
Kept ps (some qs) = Distinct qs × ((j : Bytes) → find_param ps j ≡ none → find_param qs j ≡ none)

same_names :
    (p q : Param) (ps qs : List Param)
    → p.name ≡ q.name
    → ((j : Bytes) → find_param ps j ≡ none → find_param qs j ≡ none)
    → (j : Bytes) → find_param (p ∷ ps) j ≡ none
    → find_param (q ∷ qs) j ≡ none
unfolding find_param
same_names p q ps qs e h j none_there = elim (Bool-cases (strcmp_equal p.name j)) [
  | inl hit ↦ ground arith
  | inr miss ↦ ground (arith, h j, ap (λ s. strcmp_equal s j) e)
]

update_param-Kept :
    (ps : List Param) (name value : Bytes) → Distinct ps → Kept ps (update_param ps name value)
unfolding update_param
update_param-Kept [] name value d = tt
update_param-Kept (p ∷ ps) name value (fresh, d) =
    here (strcmp_equal p.name name) (update_param ps name value) (update_param-Kept ps name value d)
  where
    here :
        (b : Bool) (u : Option (List Param))
        → Kept ps u
        → Kept (p ∷ ps) (
            if b
            then some (updated p value ∷ ps)
            else elim u [ none ↦ none | some qs ↦ some (p ∷ qs) ])
    here true u k = (
      (subst (λ n. find_param ps n ≡ none) (sym (updated-name name value p)) fresh, d),
      same_names p (updated p value) ps ps (sym (updated-name name value p)) (λ j h. h),
    )
    here false none k = tt
    here false (some qs) (dq, keep) = ((keep p.name fresh, dq), same_names p p ps qs refl keep)

-- Distinct names stay distinct under a write.
param_list_set-Distinct :
    (pl : ParamList) (name value : Bytes) (m : Bool)
    → Distinct pl.params
    → Distinct (param_list_set pl name value m).params
unfolding param_list_set
param_list_set-Distinct pl name value m d =
    finish (update_param pl.params name value) (loop name value pl.params)
      (update_param-Kept pl.params name value d)
  where
    new : Param
    new = record { name = name; value = value; modified = m }

    finish :
        (u : Option (List Param))
        → ((u ≡ none) × (find_param pl.params name ≡ none))
          ⊎ ((qs : List Param) × (old : Param) × (u ≡ some qs)
              × (find_param pl.params name ≡ some old)
              × ((j : Bytes)
                  → find_param qs j ≡ (
                      if strcmp_equal name j
                      then some (updated old value)
                      else find_param pl.params j)))
        → Kept pl.params u
        → Distinct (set_or_add pl new u).params
    finish none (inl (e, fresh)) k = (fresh, d)
    finish none (inr (qs, old, e, r, h)) k = absurd cc
    finish (some qs) l (dq, keep) = dq
