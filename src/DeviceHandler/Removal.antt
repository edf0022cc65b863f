-- ===== src/DeviceHandler/Removal.antt =====
-- device_handler_remove: the default is not an option of a removed device.
use mathlib.Core.Path.{subst}
use petitboot.Base.{
  ℕ, ◌≢◌, ◌∙◌, ◌++◌, ◌==◌, arith, ◌≡◌, refl, sym, ap, false, Option, none, some, List, [], ◌∷◌, ◌⊎◌,
  inl, inr, Bool-cases, All,
}
use petitboot.DeviceHandler.State.{DiscoverDevice, DiscoverBootOption, DeviceHandler}
use petitboot.DeviceHandler.Default.{
  same_option, cancel_if_default, remove_requery, remove_device, device_handler_remove,
}
use petitboot.Base.Options.{◌>>=◌}
use petitboot.DeviceHandler.Steps.{Option-cases}
use petitboot.DeviceHandler.Timer.{remove_from, waiter_remove}
use petitboot.DeviceHandler.Cancel.{timers, Timed, cancel_default-Cancelled}

-- The default is another option.
abbrev pub NotDefault : Option DiscoverBootOption → DiscoverBootOption → Type 0
NotDefault d o = same_option (some o) d ≡ false

none-NotDefault : (os : List DiscoverBootOption) → All (NotDefault none) os
unfolding same_option
none-NotDefault [] = tt
none-NotDefault (o ∷ os) = (refl, none-NotDefault os)

-- A default that went away, or is the same, is still not o.
still-NotDefault :
    (o : DiscoverBootOption) (d d' : Option DiscoverBootOption)
    → NotDefault d o
    → (d' ≡ none) ⊎ (d' ≡ d)
    → NotDefault d' o
unfolding same_option
still-NotDefault o d d' other (inl gone) = subst (λ x. NotDefault x o) (sym gone) refl
still-NotDefault o d d' other (inr same) = subst (λ x. NotDefault x o) (sym same) other

cancel_if_default-NotDefault :
    (os : List DiscoverBootOption) (h : DeviceHandler)
    → Timed h
    → (h' : DeviceHandler) × (cancel_if_default os h ≡ some h')
      × All (NotDefault h'.default_boot_option) os
      × ((h'.default_boot_option ≡ none) ⊎ (h'.default_boot_option ≡ h.default_boot_option))
      × (h'.devices ≡ h.devices)
unfolding cancel_if_default
cancel_if_default-NotDefault [] h timed = (h, refl, tt, inr refl, refl)
cancel_if_default-NotDefault (o ∷ os) h timed =
    elim (Bool-cases (same_option (some o) h.default_boot_option)) [
      | inl same ↦
          let (h', e, (off, dd, ws, tw), left, temp, devs) = cancel_default-Cancelled h timed in
          (
            h',
            rw (cancel_if_default, same) e,
            subst (λ x. All (NotDefault x) (o ∷ os)) (sym dd) (none-NotDefault (o ∷ os)),
            inl dd,
            devs,
          )
      | inr other ↦
          let (h', e, rest, dd, devs) = cancel_if_default-NotDefault os h timed in
          (
            h',
            rw (cancel_if_default, other) e,
            (still-NotDefault o h.default_boot_option h'.default_boot_option other dd, rest),
            dd,
            devs,
          )
    ]

-- Another device.
abbrev pub IsOther : DiscoverDevice → DiscoverDevice → Type 0
IsOther dev x = (x.address == dev.address) ≡ false

-- The array lost its first pointer to the device, or it has none and is as it was.
abbrev pub LostFirst : DiscoverDevice → List DiscoverDevice → List DiscoverDevice → Type 0
LostFirst dev devs left =
    ((before : List DiscoverDevice) × (it : DiscoverDevice) × (after : List DiscoverDevice) × (devs
        ≡ before ++ it ∷ after)
      × All (IsOther dev) before
      × (it.address ≡ dev.address)
      × (left ≡ before ++ after))
    ⊎ (All (IsOther dev) devs × (left ≡ devs))

remove_device-LostFirst :
    (dev : DiscoverDevice) (devs : List DiscoverDevice)
    → LostFirst dev devs (remove_device dev devs)
unfolding remove_device
remove_device-LostFirst dev [] = inr (tt, refl)
remove_device-LostFirst dev (d ∷ devs) = elim (Bool-cases (d.address == dev.address)) [
  | inl hit ↦ inl ([], d, devs, refl, tt, ground arith, rw hit refl)
  | inr other ↦
      let kept : remove_device dev (d ∷ devs) ≡ d ∷ remove_device dev devs = rw other refl in
      elim (remove_device-LostFirst dev devs) [
        | inl there ↦
            let (before, it, after, e, others, same, left) = there in
            inl (d ∷ before, it, after, ap (d ∷◌) e, (other, others), same, kept ∙ ap (d ∷◌) left)
        | inr nowhere ↦ inr ((other, nowhere.0), kept ∙ ap (d ∷◌) nowhere.1)
      ]
]

-- The registered timers are the one that the handler knows and, in front of it or behind it, the
-- device's own.
abbrev pub RequeryTimed : Option ℕ → DeviceHandler → Type 0
RequeryTimed none h = Timed h
RequeryTimed (some w) h =
    (h.waiters ≡ w ∷ timers h.timeout_waiter)
    ⊎ ((h.waiters ≡ timers h.timeout_waiter ++ w ∷ []) × (h.timeout_waiter ≢ some w))

remove_requery-Timed :
    (r : Option ℕ) (h : DeviceHandler)
    → RequeryTimed r h
    → remove_requery r h ≡ some (record h { waiters = timers h.timeout_waiter })
unfolding waiter_remove remove_from
remove_requery-Timed none h timed = ap (λ ws. some (record h { waiters = ws })) timed
remove_requery-Timed (some w) h (inl front) = ground arith
remove_requery-Timed (some w) h (inr (behind, other)) = elim (Option-cases h.timeout_waiter) [
  | inl off ↦ ground arith
  | inr on ↦
      let (v, e) = on in
      elim (Bool-cases (v == w)) [
        | inl same ↦ absurd (other (e ∙ ap some (ground arith)))
        | inr apart ↦ ground arith
      ]
]

-- When the timer that the handler knows is the only one registered (or it knows none and none is
-- registered), but for the requery timer of the device, which is registered if it has one, removing
-- the device never fails an assertion, takes the first pointer to it from the array and no other,
-- and leaves no option of the device as the default: the default is the one before or none.
pub device_handler_remove-NotDefault :
    (dev : DiscoverDevice) (h : DeviceHandler)
    → RequeryTimed dev.requery_waiter h
    → (h' : DeviceHandler) × (device_handler_remove dev h ≡ some h')
      × LostFirst dev h.devices h'.devices
      × All (NotDefault h'.default_boot_option) (h.boot_options dev.address)
      × ((h'.default_boot_option ≡ none) ⊎ (h'.default_boot_option ≡ h.default_boot_option))
unfolding device_handler_remove
device_handler_remove-NotDefault dev h timed =
    let s : DeviceHandler = record h { waiters = timers h.timeout_waiter } in
    let (c, e, others, dd, devs) =
      cancel_if_default-NotDefault (h.boot_options dev.address) s refl in
    (
      record c { devices = remove_device dev c.devices },
      ap (λ r. r >>= cancelled) (remove_requery-Timed dev.requery_waiter h timed)
          ∙ ap (λ r. r >>= removed) e,
      subst (λ ds. LostFirst dev ds (remove_device dev c.devices)) devs
          (remove_device-LostFirst dev c.devices),
      others,
      dd,
    )
  where
    removed : DeviceHandler → Option DeviceHandler
    removed x = some (record x { devices = remove_device dev x.devices })

    cancelled : DeviceHandler → Option DeviceHandler
    cancelled x = cancel_if_default (h.boot_options dev.address) x >>= removed
