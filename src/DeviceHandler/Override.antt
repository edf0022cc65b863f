-- ===== src/DeviceHandler/Override.antt =====
-- device_handler_apply_temp_autoboot: what the default is afterwards.
use mathlib.Core.Path.{subst}
use petitboot.Base.{
  ℕ, zero, suc, ◌≡◌, refl, ◌∙◌, sym, Bool, true, false, Option, none, some, List, [], ◌∷◌, ◌<◌, ◌⊎◌,
  inl, inr, ◌==◌, if◌then◌else◌, Bool-cases, ltb, ltb-lt, arith,
}
use petitboot.Types.{AutobootOption, Config, status_error}
use petitboot.DeviceHandler.State.{DiscoverDevice, DiscoverBootOption, DeviceHandler, BootRun}
use petitboot.DeviceHandler.Priority.{
  priority_disabled, autoboot_option_matches, default_option_priority,
}
use petitboot.DeviceHandler.Timer.{
  device_handler_boot_status_cb, report_all, start_boot, register_timeout, default_timeout,
}
use petitboot.DeviceHandler.Default.{
  first_default, take_default, set_default, offer_first_default, rescan, choose_again,
  device_handler_apply_temp_autoboot,
}
use petitboot.DeviceHandler.Steps.{
  Option-cases, set_default-out, set_default-taken, default_timeout-none, default_timeout-pending,
  default_timeout-counting, default_timeout-boot, take_default-first, take_default-beaten,
  take_default-stays,
}
use petitboot.DeviceHandler.Cancel.{Timed, cancel_default-Cancelled}

-- The default, where there is one, is on a device that the option matches.
abbrev pub Matched : AutobootOption → Option DiscoverBootOption → Type 0
Matched temp none = Unit
Matched temp (some d) = autoboot_option_matches temp d.device ≡ true

-- Autoboot is enabled, the override is in force, and the default keeps to it.
abbrev Fits : AutobootOption → DeviceHandler → Type 0
Fits temp h =
    (h.autoboot_enabled ≡ true) × (h.temp_autoboot ≡ some temp) × Matched temp h.default_boot_option

report_all-Fits :
    (temp : AutobootOption) (types : List ℕ) (h : DeviceHandler)
    → Fits temp h
    → Fits temp (report_all types h)
unfolding report_all device_handler_boot_status_cb
report_all-Fits temp [] h f = f
report_all-Fits temp (type ∷ types) h (a, t, m) =
    report_all-Fits temp types (device_handler_boot_status_cb type h)
      (elim (Bool-cases (type == status_error)) [
        | inl error ↦ rw error (a, t, tt)
        | inr other ↦ rw other (a, t, m)
      ])

default_timeout-Fits :
    (temp : AutobootOption) (run : BootRun) (h : DeviceHandler)
    → Fits temp h
    → Fits temp (default_timeout run h)
unfolding start_boot register_timeout
default_timeout-Fits temp run h (a, t, m) = elim (Option-cases h.default_boot_option) [
  | inl off ↦ rw (default_timeout-none run h off) (a, t, m)
  | inr on ↦
      let (d, dd) = on in
      elim (Option-cases h.pending_boot) [
        | inr busy ↦
            let (task, p) = busy in rw (default_timeout-pending run h d task dd p) (a, t, m)
        | inl free ↦ elim (counting-or-over h.sec_to_boot) [
          | inl more ↦
              let (n, sec) = more in rw (default_timeout-counting run h d n dd free sec) (a, t, m)
          | inr over ↦ rw (default_timeout-boot run d h dd free over) (
              report_all-Fits temp run.reports
                (record h { last_boot_option = some d; timeout_waiter = none }) (a, t, m))
        ]
      ]
]
  where
    counting-or-over : (n : ℕ) → ((m : ℕ) × (n ≡ suc m)) ⊎ (n ≡ 0)
    counting-or-over zero = inr refl
    counting-or-over (suc m) = inl (m, refl)

-- An option inside the range matches the override.
allowed-matches :
    (config : Config) (temp : AutobootOption) (o : DiscoverBootOption) (h : DeviceHandler)
    → h.temp_autoboot ≡ some temp
    → default_option_priority config h o < priority_disabled
    → autoboot_option_matches temp o.device ≡ true
unfolding default_option_priority
allowed-matches config temp o h t lt = ground arith

take_default-Fits :
    (config : Config) (temp : AutobootOption) (run : BootRun) (o : DiscoverBootOption) (prio : ℕ)
    (h : DeviceHandler)
    → autoboot_option_matches temp o.device ≡ true
    → Fits temp h
    → Fits temp (take_default config run o prio h)
unfolding take_default first_default
take_default-Fits config temp run o prio h m (a, t, f) = elim (Option-cases h.default_boot_option) [
  | inl off ↦
      rw (take_default-first config run o prio h off)
        (default_timeout-Fits temp run (first_default config o prio h) (a, t, m))
  | inr on ↦
      let (d, dd) = on in
      elim (Bool-cases (ltb prio h.default_boot_option_priority)) [
        | inl less ↦ rw (take_default-beaten config run o d prio h dd less) (a, t, m)
        | inr more ↦ rw (take_default-stays config run o d prio h dd more) (a, t, f)
      ]
]

set_default-Fits :
    (config : Config) (temp : AutobootOption) (run : BootRun) (o : DiscoverBootOption)
    (h : DeviceHandler)
    → Fits temp h
    → Fits temp (set_default config run o h)
set_default-Fits config temp run o h (a, t, f) =
    elim (Bool-cases (ltb (default_option_priority config h o) priority_disabled)) [
      | inl inside ↦
          let lt = ltb-lt (default_option_priority config h o) priority_disabled inside in
          rw (set_default-taken config run o h a lt) (
            take_default-Fits config temp run o (default_option_priority config h o) h
              (allowed-matches config temp o h t lt) (a, t, f))
      | inr outside ↦ rw (set_default-out config run o h (ground arith)) (a, t, f)
    ]

if-Fits :
    (temp : AutobootOption) (b : Bool) (g h : DeviceHandler)
    → Fits temp g
    → Fits temp h
    → Fits temp (if b then g else h)
if-Fits temp true g h f f' = f
if-Fits temp false g h f f' = f'

offer_first_default-Fits :
    (config : Config) (temp : AutobootOption) (run : BootRun) (os : List DiscoverBootOption)
    (h : DeviceHandler)
    → Fits temp h
    → Fits temp (offer_first_default config run os h)
unfolding offer_first_default
offer_first_default-Fits config temp run [] h f = f
offer_first_default-Fits config temp run (o ∷ os) h f =
    if-Fits temp o.is_default (set_default config run o h) (offer_first_default config run os h)
      (set_default-Fits config temp run o h f) (offer_first_default-Fits config temp run os h f)

rescan-Fits :
    (config : Config) (temp : AutobootOption) (run : BootRun) (devs : List DiscoverDevice)
    (h : DeviceHandler)
    → Fits temp h
    → Fits temp (rescan config run temp devs h)
unfolding rescan
rescan-Fits config temp run [] h f = f
rescan-Fits config temp run (dev ∷ devs) h f =
    let offered = offer_first_default config run (h.boot_options dev.address) h in
    rescan-Fits config temp run devs (if autoboot_option_matches temp dev then offered else h) (
      if-Fits temp (autoboot_option_matches temp dev) offered h
        (offer_first_default-Fits config temp run (h.boot_options dev.address) h f) f)

choose_again-Fits :
    (config : Config) (temp : AutobootOption) (run : BootRun) (h : DeviceHandler)
    → Timed h
    → h.temp_autoboot ≡ some temp
    → (h' : DeviceHandler) × (choose_again config run temp h ≡ some h') × Fits temp h'
unfolding choose_again
choose_again-Fits config temp run h timed t =
    let (c, e, (off, dd, ws, tw), left, kept, devs) = cancel_default-Cancelled h timed in
    let b = record c { autoboot_enabled = true } in
    (
      rescan config run temp c.devices b,
      rw (choose_again, e) refl,
      rescan-Fits config temp run c.devices b (refl, kept ∙ t, subst (Matched temp) (sym dd) tt),
    )

apply-again :
    (config : Config) (temp : AutobootOption) (run : BootRun) (h : DeviceHandler)
    (d : DiscoverBootOption)
    → h.autoboot_enabled ≡ true
    → h.default_boot_option ≡ some d
    → autoboot_option_matches temp d.device ≡ false
    → device_handler_apply_temp_autoboot config run temp h
      ≡ choose_again config run temp (record h { temp_autoboot = some temp })
unfolding device_handler_apply_temp_autoboot
apply-again config temp run h d on dd wrong = ground arith

-- When autoboot is enabled and the timer that the handler knows is the only one registered (or it
-- knows none and none is registered), applying a temporary override never fails an assertion,
-- leaves autoboot enabled and the override in force, and the default that the handler has then,
-- if it has one, is on a device that the override matches.
pub apply_temp_autoboot-Fits :
    (config : Config) (temp : AutobootOption) (run : BootRun) (h : DeviceHandler)
    → h.autoboot_enabled ≡ true
    → Timed h
    → (h' : DeviceHandler) × (device_handler_apply_temp_autoboot config run temp h ≡ some h')
      × (h'.autoboot_enabled ≡ true)
      × (h'.temp_autoboot ≡ some temp)
      × Matched temp h'.default_boot_option
unfolding device_handler_apply_temp_autoboot
apply_temp_autoboot-Fits config temp run h on timed =
    let b = record h { temp_autoboot = some temp } in
    elim (Option-cases h.default_boot_option) [
      | inl off ↦ (b, ground arith, on, refl, subst (Matched temp) (sym off) tt)
      | inr some_default ↦
          let (d, dd) = some_default in
          elim (Bool-cases (autoboot_option_matches temp d.device)) [
            | inl fits ↦ (b, ground arith, on, refl, subst (Matched temp) (sym dd) fits)
            | inr wrong ↦
                let (h', e, (a, t, m)) = choose_again-Fits config temp run b timed refl in
                (h', apply-again config temp run h d on dd wrong ∙ e, a, t, m)
          ]
    ]
