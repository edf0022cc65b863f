-- ===== src/DeviceHandler/Order.antt =====
-- autoboot_option_priority: the first entry of the boot order that matches.
use petitboot.Base.{
  ℕ, suc, ◌+◌, ◌≡◌, refl, ap, true, false, Option, none, some, List, [], ◌∷◌, ◌++◌, ◌⊎◌, inl, inr,
  Bool-cases, All, length, arith,
}
use petitboot.Types.{AutobootOption, Config}
use petitboot.DeviceHandler.State.{DiscoverDevice, DiscoverBootOption}
use petitboot.DeviceHandler.Priority.{
  priority_local_first, autoboot_option_matches, autoboot_priority_from, autoboot_option_priority,
}

abbrev pub Misses : DiscoverDevice → AutobootOption → Type 0
Misses dev a = autoboot_option_matches a dev ≡ false

-- The first entry that matches, behind entries that do not.
abbrev pub FirstMatch : DiscoverDevice → List AutobootOption → Option ℕ → ℕ → Type 0
FirstMatch dev opts r i =
    (before : List AutobootOption) × (a : AutobootOption) × (after : List AutobootOption) × (opts
      ≡ before ++ a ∷ after)
    × All (Misses dev) before
    × (autoboot_option_matches a dev ≡ true)
    × (r ≡ some (priority_local_first + (i + length before)))

priority_from-first :
    (opts : List AutobootOption) (i : ℕ) (dev : DiscoverDevice)
    → FirstMatch dev opts (autoboot_priority_from opts i dev) i
      ⊎ (All (Misses dev) opts × (autoboot_priority_from opts i dev ≡ none))
unfolding autoboot_priority_from
priority_from-first [] i dev = inr (tt, refl)
priority_from-first (a ∷ opts) i dev = elim (Bool-cases (autoboot_option_matches a dev)) [
  | inl hit ↦ inl ([], a, opts, refl, tt, hit, ground arith)
  | inr miss ↦ elim (priority_from-first opts (suc i) dev) [
    | inl found ↦
        let (before, b, after, parts, misses, hit, r) = found in
        inl (a ∷ before, b, after, ap (◌∷◌ a) parts, (miss, misses), hit, ground (arith, r))
    | inr nothing ↦ let (misses, r) = nothing in inr ((miss, misses), ground (arith, r))
  ]
]

-- The priority that the configured boot order gives an option is DEFAULT_PRIORITY_LOCAL_FIRST plus
-- the number of the entries before the first one that matches the option's device; there is
-- none just when no entry matches.
pub autoboot_option_priority-first :
    (config : Config) (o : DiscoverBootOption)
    → FirstMatch o.device config.autoboot_opts (autoboot_option_priority config o) 0
      ⊎ (All (Misses o.device) config.autoboot_opts × (autoboot_option_priority config o ≡ none))
unfolding autoboot_option_priority
autoboot_option_priority-first config o = priority_from-first config.autoboot_opts 0 o.device
