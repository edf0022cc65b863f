-- ===== src/BootOrder/RoundTrip.antt =====
-- A boot order that is saved and loaded again.
use mathlib.Core.List.{append_assoc}
use petitboot.CString.{
  codes, Lacks, split_at-append, strcmp_equal, strcmp_equal_self, strcmp_equal-eq,
}
use petitboot.Talloc.{CStr}
use petitboot.Types.{AutobootOption, by_type, by_uuid, Config}
use petitboot.ParamList.{
  Param, ParamList, param_list_get_param, param_list_get_value, param_list_set,
  param_list_set_non_empty,
}
use petitboot.ParamList.Lookup.{written, param_list_get_param-param_list_set}
use petitboot.Base.{
  ℕ, zero, suc, ◌≤◌, ◌<◌, ◌≡◌, ◌≢◌, refl, sym, ap, ◌∙◌, Bool, true, Option, none, some, List, [],
  ◌∷◌, ◌++◌, if◌then◌else◌, Bytes, length, length-append, All, arith, Bool-cases, inl, inr,
}
use petitboot.BootOrder.{
  device_type_name, find_device_type, bootdev_option, read_bootdev, with_option, read_bootdevs,
  new_options, take_options, config_populate_bootdev, printed_text, bootdev_text, bootdev_values,
  params_update_bootdev_values,
}

-- A known type, or a UUID that is not empty and has no space.
abbrev pub IsKept : AutobootOption → Type 0
IsKept (by_type t) = t < 6
IsKept (by_uuid b none) = ⊥
IsKept (by_uuid b (some [])) = ⊥
IsKept (by_uuid b (some (c ∷ uuid))) = (b ≡ 1) × Lacks 32 (c ∷ uuid)

-- The text of one option, without its space.
abbrev option_text : AutobootOption → Bytes
option_text (by_type t) = device_type_name t
option_text (by_uuid b uuid) = codes "uuid:" ++ printed_text uuid

read_bootdev-space :
    (stale : Bool) (text rest : Bytes)
    → Lacks 32 text
    → read_bootdev stale (text ++ 32 ∷ rest) ≡ (bootdev_option stale (text ++ 32 ∷ rest) text, rest)
unfolding read_bootdev
read_bootdev-space stale text rest h = rw (read_bootdev, split_at-append 32 text rest h) refl

read_bootdev-option_text :
    (stale : Bool) (opt : AutobootOption) (rest : Bytes)
    → IsKept opt
    → read_bootdev stale (option_text opt ++ 32 ∷ rest) ≡ (some opt, rest)
unfolding bootdev_option device_type_name find_device_type
read_bootdev-option_text stale (by_type zero) rest h =
    read_bootdev-space stale (codes "network") rest search
read_bootdev-option_text stale (by_type (suc zero)) rest h =
    read_bootdev-space stale (codes "disk") rest search
read_bootdev-option_text stale (by_type (suc (suc zero))) rest h =
    read_bootdev-space stale (codes "usb") rest search
read_bootdev-option_text stale (by_type (suc (suc (suc zero)))) rest h =
    read_bootdev-space stale (codes "optical") rest search
read_bootdev-option_text stale (by_type (suc (suc (suc (suc zero))))) rest h =
    read_bootdev-space stale (codes "any") rest search
read_bootdev-option_text stale (by_type (suc (suc (suc (suc (suc zero)))))) rest h =
    read_bootdev-space stale (codes "encrypted") rest search
read_bootdev-option_text stale (by_type (suc (suc (suc (suc (suc (suc t))))))) rest h =
    absurd (omega arith)
read_bootdev-option_text stale (by_uuid b none) rest h = absurd h
read_bootdev-option_text stale (by_uuid b (some [])) rest h = absurd h
read_bootdev-option_text stale (by_uuid b (some (c ∷ uuid))) rest (one, h) =
    read_bootdev-space stale (codes "uuid:" ++ c ∷ uuid) rest
      (refl, (refl, (refl, (refl, (refl, h)))))
    ∙ ap (λ x. (some (by_uuid x (some (c ∷ uuid))), rest)) (sym one)

bootdev_text-IsKept :
    (last : CStr) (opt : AutobootOption)
    → IsKept opt
    → bootdev_text last opt ≡ some (option_text opt ++ 32 ∷ [])
unfolding bootdev_text
bootdev_text-IsKept last (by_type t) h = refl
bootdev_text-IsKept last (by_uuid b none) h = absurd h
bootdev_text-IsKept last (by_uuid b (some [])) h = absurd h
bootdev_text-IsKept last (by_uuid b (some (c ∷ uuid))) (one, h) = rw one refl

-- A round of the loop on text that is not empty.
read_bootdevs_step :
    (fuel : ℕ) (stale : Bool) (pos : Bytes)
    → pos ≢ []
    → read_bootdevs (suc fuel) stale pos
      ≡ with_option (read_bootdev stale pos).0 (read_bootdevs fuel stale (read_bootdev stale pos).1)
unfolding read_bootdevs
read_bootdevs_step fuel stale [] ne = absurd (ne refl)
read_bootdevs_step fuel stale (c ∷ pos) ne = refl

read_bootdevs-option_text :
    (fuel : ℕ) (stale : Bool) (opt : AutobootOption) (rest : Bytes)
    → IsKept opt
    → read_bootdevs (suc fuel) stale (option_text opt ++ 32 ∷ rest)
      ≡ opt ∷ read_bootdevs fuel stale rest
read_bootdevs-option_text fuel stale opt rest kept =
    read_bootdevs_step fuel stale (option_text opt ++ 32 ∷ rest) (shape (option_text opt))
    ∙ ap (λ r. with_option r.0 (read_bootdevs fuel stale r.1))
        (read_bootdev-option_text stale opt rest kept)
  where
    shape : (s : Bytes) → (s ++ 32 ∷ rest) ≢ []
    shape [] e = cc
    shape (c ∷ s) e = cc

bootdev_values-shape :
    (last : CStr) (opt : AutobootOption) (opts : List AutobootOption)
    → IsKept opt
    → bootdev_values last (opt ∷ opts)
      ≡ option_text opt ++ 32 ∷ bootdev_values (bootdev_text last opt) opts
unfolding bootdev_values
bootdev_values-shape last opt opts kept =
    ap (λ t. printed_text t ++ bootdev_values (bootdev_text last opt) opts)
      (bootdev_text-IsKept last opt kept)
    ∙ append_assoc (option_text opt) (32 ∷ []) (bootdev_values (bootdev_text last opt) opts)

length-shape :
    (last : CStr) (opt : AutobootOption) (opts : List AutobootOption)
    → IsKept opt
    → suc (length (bootdev_values (bootdev_text last opt) opts))
      ≤ length (bootdev_values last (opt ∷ opts))
length-shape last opt opts kept =
    let later = bootdev_values (bootdev_text last opt) opts in
    let whole = ap length (bootdev_values-shape last opt opts kept) in
    omega (arith, length-append (option_text opt) (32 ∷ later))

read_bootdevs-bootdev_values :
    (fuel : ℕ) (stale : Bool) (last : CStr) (opts : List AutobootOption)
    → length (bootdev_values last opts) ≤ fuel
    → All IsKept opts
    → read_bootdevs fuel stale (bootdev_values last opts) ≡ opts
read_bootdevs-bootdev_values zero stale last [] room h = unfold read_bootdevs bootdev_values in refl
read_bootdevs-bootdev_values (suc fuel) stale last [] room h =
    unfold read_bootdevs bootdev_values in refl
read_bootdevs-bootdev_values zero stale last (opt ∷ opts) room (kept, h) =
    absurd (omega (arith, length-shape last opt opts kept))
read_bootdevs-bootdev_values (suc fuel) stale last (opt ∷ opts) room (kept, h) =
    ap (read_bootdevs (suc fuel) stale) (bootdev_values-shape last opt opts kept)
    ∙ read_bootdevs-option_text fuel stale opt _ kept
    ∙ ap (◌∷◌ opt) (
        read_bootdevs-bootdev_values fuel stale (bootdev_text last opt) opts
          (omega (arith, length-shape last opt opts kept)) h)

-- A value that is set is the one that is found.
pub param_list_get_value-param_list_set :
    (pl : ParamList) (name value : Bytes) (m : Bool)
    → param_list_get_value (param_list_set pl name value m) name ≡ some value
unfolding param_list_get_value
param_list_get_value-param_list_set pl name value m =
    ap found (param_list_get_param-param_list_set pl name value m name)
    ∙ ap
        (λ b. found (
          if b
          then some (written (param_list_get_param pl name) name value m)
          else param_list_get_param pl name))
        (strcmp_equal_self name)
    ∙ ap some (kept (param_list_get_param pl name))
  where
    found : Option Param → Option Bytes
    found none = none
    found (some p) = some p.value

    kept : (p : Option Param) → (written p name value m).value ≡ value
    kept none = refl
    kept (some p) = elim (Bool-cases (strcmp_equal p.value value)) [
      | inl same ↦ ground (arith, strcmp_equal-eq p.value value same)
      | inr other ↦ ground arith
    ]

pub param_list_set_non_empty-param_list_set :
    (pl : ParamList) (name value : Bytes) (m : Bool)
    → value ≢ []
    → param_list_set_non_empty pl name value m ≡ param_list_set pl name value m
unfolding param_list_set_non_empty
param_list_set_non_empty-param_list_set pl name [] m ne = absurd (ne refl)
param_list_set_non_empty-param_list_set pl name (c ∷ value) m ne =
    either (param_list_get_value pl name)
  where
    either :
        (old : Option Bytes)
        → (elim old [
          | none ↦ param_list_set pl name (c ∷ value) m
          | some x ↦ param_list_set pl name (c ∷ value) m
        ])
          ≡ param_list_set pl name (c ∷ value) m
    either none = refl
    either (some x) = refl

-- A boot order that is saved in the platform's parameters is the one that is loaded from them, into
-- any configuration and whatever the parameters and fresh memory held: if it is not empty, its
-- types are known, and its UUIDs are neither empty nor have a space.
pub config_populate_bootdev-params_update_bootdev_values :
    (stale : Bool) (pl : ParamList) (saved config : Config)
    → saved.autoboot_opts ≢ []
    → All IsKept saved.autoboot_opts
    → (config_populate_bootdev stale config
        (params_update_bootdev_values pl (codes "petitboot,bootdevs") saved)).autoboot_opts
      ≡ saved.autoboot_opts
unfolding config_populate_bootdev params_update_bootdev_values
config_populate_bootdev-params_update_bootdev_values stale pl saved config ne h =
    let name = codes "petitboot,bootdevs" in
    let value = bootdev_values none saved.autoboot_opts in
    let found : param_list_get_value (param_list_set_non_empty pl name value true) name
        ≡ some value =
      ap (λ l. param_list_get_value l name)
        (param_list_set_non_empty-param_list_set pl name value true (text saved.autoboot_opts ne h))
      ∙ param_list_get_value-param_list_set pl name value true in
    ap (λ v. (take_options config (new_options stale v)).autoboot_opts) found
    ∙ ap (λ opts. (take_options config opts).autoboot_opts)
        (read_bootdevs-bootdev_values (length value) stale none saved.autoboot_opts (omega arith) h)
    ∙ taken saved.autoboot_opts ne
  where
    text :
        (opts : List AutobootOption) → opts ≢ [] → All IsKept opts → bootdev_values none opts ≢ []
    text [] ne h e = ne refl
    text (opt ∷ opts) ne (kept, h) e =
        let none_there = ap length e in omega (arith, length-shape none opt opts kept)

    taken :
        (opts : List AutobootOption) → opts ≢ [] → (take_options config opts).autoboot_opts ≡ opts
    taken [] ne = absurd (ne refl)
    taken (opt ∷ opts) ne = refl
