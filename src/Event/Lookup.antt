-- ===== src/Event/Lookup.antt =====
-- Reading a parameter of an event after it is set.
use petitboot.CString.{strcmp_equal, strcasecmp_equal, tolower, strcmp_equal-eq}
use petitboot.Base.{
  ◌≡◌, refl, sym, ap, ◌∙◌, true, false, some, List, [], ◌∷◌, ◌==◌, if◌then◌else◌, Bytes, Bool-cases,
  inl, inr, map, arith,
}
use petitboot.Event.{EventParam, Event, get_param, event_get_param, set_param, event_set_param}

-- Comparison without case is comparison of the texts in lower case.
strcasecmp-strcmp :
    (s t : Bytes) → strcasecmp_equal s t ≡ strcmp_equal (map tolower s) (map tolower t)
strcasecmp-strcmp [] [] = refl
strcasecmp-strcmp [] (b ∷ t) = refl
strcasecmp-strcmp (a ∷ s) [] = refl
strcasecmp-strcmp (a ∷ s) (b ∷ t) =
    ap (λ r. if tolower a == tolower b then r else false) (strcasecmp-strcmp s t)

-- Texts that are equal without case compare alike with every text.
strcasecmp_alike :
    (s t j : Bytes) → strcasecmp_equal s t ≡ true → strcasecmp_equal s j ≡ strcasecmp_equal t j
strcasecmp_alike s t j e =
    strcasecmp-strcmp s j
    ∙ ap (λ u. strcmp_equal u (map tolower j))
        (strcmp_equal-eq (map tolower s) (map tolower t) (sym (strcasecmp-strcmp s t) ∙ e))
    ∙ sym (strcasecmp-strcmp t j)

strcasecmp_alike_right :
    (s t j : Bytes) → strcasecmp_equal s t ≡ true → strcasecmp_equal j s ≡ strcasecmp_equal j t
strcasecmp_alike_right s t j e =
    strcasecmp-strcmp j s
    ∙ ap (strcmp_equal (map tolower j))
        (strcmp_equal-eq (map tolower s) (map tolower t) (sym (strcasecmp-strcmp s t) ∙ e))
    ∙ sym (strcasecmp-strcmp j t)

get_param-set_param :
    (ps : List EventParam) (name value j : Bytes)
    → get_param (set_param ps name value) j
      ≡ (if strcasecmp_equal name j then some value else get_param ps j)
unfolding get_param set_param
get_param-set_param [] name value j = refl
get_param-set_param (p ∷ ps) name value j = elim (Bool-cases (strcasecmp_equal p.name name)) [
  | inl hit ↦ ground (arith, strcasecmp_alike p.name name j hit)
  | inr miss ↦ elim (Bool-cases (strcasecmp_equal name j)) [
    | inl target ↦ ground (
      arith,
      get_param-set_param ps name value j,
      sym (strcasecmp_alike_right name j p.name target) ∙ miss,
    )
    | inr other ↦ ground (arith, get_param-set_param ps name value j)
  ]
]

-- Once a parameter is set, it is read under its name in any case of the letters, and every other
-- name is read as before.
event_get_param-event_set_param :
    (event : Event) (name value j : Bytes)
    → event_get_param (event_set_param event name value) j
      ≡ (if strcasecmp_equal name j then some value else event_get_param event j)
unfolding event_get_param event_set_param
event_get_param-event_set_param event name value j = get_param-set_param event.params name value j
