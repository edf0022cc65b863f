-- ===== src/DeviceHandler/Cancel.antt =====
-- device_handler_cancel_default: what it leaves, and what can happen afterwards.
use petitboot.Base.{
  ℕ, ◌≡◌, refl, ◌∙◌, false, Option, none, some, List, [], ◌∷◌, inl, inr, if◌then◌else◌, arith,
}
use petitboot.Types.{Config}
use petitboot.DeviceHandler.State.{DiscoverBootOption, DeviceHandler, BootRun}
use petitboot.DeviceHandler.Timer.{
  device_handler_boot_status_cb, boot_cancel, remove_from, waiter_remove,
}
use petitboot.DeviceHandler.Default.{
  set_default, stop_autoboot, cancel_default_boot, device_handler_cancel_default,
}
use petitboot.DeviceHandler.Steps.{Option-cases}
use petitboot.DeviceHandler.Choice.{offer_all}

-- The timer of the handler, as a list.
abbrev pub timers : Option ℕ → List ℕ
timers none = []
timers (some w) = w ∷ []

-- The registered timers are the one that the handler knows.
abbrev pub Timed : DeviceHandler → Type 0
Timed h = h.waiters ≡ timers h.timeout_waiter

abbrev pub stopped : DeviceHandler → DeviceHandler
stopped h = record h { waiters = []; timeout_waiter = none; autoboot_enabled = false }

pub stop_autoboot-stopped : (h : DeviceHandler) → Timed h → stop_autoboot h ≡ some (stopped h)
unfolding stop_autoboot waiter_remove remove_from
stop_autoboot-stopped h timed = elim (Option-cases h.timeout_waiter) [
  | inl off ↦ ground arith
  | inr on ↦ let (w, e) = on in ground arith
]

-- The boot that is pending after the cancellation.
abbrev pub left_pending : DeviceHandler → Option ℕ
left_pending h = elim h.default_boot_option [
  | none ↦ h.pending_boot
  | some d ↦ if h.pending_boot_is_default then none else h.pending_boot
]

set_default-off :
    (config : Config) (run : BootRun) (o : DiscoverBootOption) (h : DeviceHandler)
    → h.autoboot_enabled ≡ false
    → set_default config run o h ≡ h
unfolding set_default
set_default-off config run o h e = ground arith

offer_all-off :
    (config : Config) (run : BootRun) (os : List DiscoverBootOption) (h : DeviceHandler)
    → h.autoboot_enabled ≡ false
    → offer_all config run os h ≡ h
unfolding offer_all
offer_all-off config run [] h e = refl
offer_all-off config run (o ∷ os) h e =
    rw (offer_all, set_default-off config run o h e) (offer_all-off config run os h e)

-- A handler without autoboot, default and timer.
abbrev pub Cancelled : DeviceHandler → Type 0
Cancelled h =
    (h.autoboot_enabled ≡ false)
    × (h.default_boot_option ≡ none)
    × (h.waiters ≡ [])
    × (h.timeout_waiter ≡ none)

-- The fields that the cancellation of the pending boot leaves alone, and the boot that is left.
cancel_default_boot-kept :
    (h : DeviceHandler)
    → ((cancel_default_boot h).autoboot_enabled ≡ h.autoboot_enabled)
      × ((cancel_default_boot h).waiters ≡ h.waiters)
      × ((cancel_default_boot h).timeout_waiter ≡ h.timeout_waiter)
      × ((cancel_default_boot h).pending_boot
          ≡ (if h.pending_boot_is_default then none else h.pending_boot))
      × ((cancel_default_boot h).temp_autoboot ≡ h.temp_autoboot)
      × ((cancel_default_boot h).devices ≡ h.devices)
      × ((cancel_default_boot h).boot_options ≡ h.boot_options)
unfolding cancel_default_boot boot_cancel device_handler_boot_status_cb
cancel_default_boot-kept h = ground arith

cancel_default-none :
    (h : DeviceHandler)
    → Timed h
    → h.default_boot_option ≡ none
    → device_handler_cancel_default h ≡ some (stopped h)
unfolding device_handler_cancel_default
cancel_default-none h timed e =
    rw (device_handler_cancel_default, stop_autoboot-stopped h timed) (ground arith)

cancel_default-some :
    (h : DeviceHandler) (d : DiscoverBootOption)
    → Timed h
    → h.default_boot_option ≡ some d
    → device_handler_cancel_default h
      ≡ some (record (cancel_default_boot (stopped h)) { default_boot_option = none })
unfolding device_handler_cancel_default
cancel_default-some h d timed e =
    rw (device_handler_cancel_default, stop_autoboot-stopped h timed) (ground arith)

pub cancel_default-Cancelled :
    (h : DeviceHandler)
    → Timed h
    → (h' : DeviceHandler) × (device_handler_cancel_default h ≡ some h')
      × Cancelled h'
      × (h'.pending_boot ≡ left_pending h)
      × (h'.temp_autoboot ≡ h.temp_autoboot)
      × (h'.devices ≡ h.devices)
cancel_default-Cancelled h timed = elim (Option-cases h.default_boot_option) [
  | inl off ↦ (
    stopped h,
    cancel_default-none h timed off,
    (refl, off, refl, refl),
    ground arith,
    refl,
    refl,
  )
  | inr on ↦
      let (d, e) = on in
      let (off, ws, tw, left, temp, devs, opts) = cancel_default_boot-kept (stopped h) in
      (
        record (cancel_default_boot (stopped h)) { default_boot_option = none },
        cancel_default-some h d timed e,
        (off, refl, ws, tw),
        left ∙ ground arith,
        temp,
        devs,
      )
]

-- When the timer that the handler knows is the only one registered (or it knows none and none is
-- registered), cancelling the default never fails an assertion: autoboot is disabled, no default
-- and no timer are left, a pending boot is dropped just when there was a default and the boot
-- is that of the default, and no sequence of offers to set_default changes the handler any more.
pub cancel_default-final :
    (config : Config) (run : BootRun) (os : List DiscoverBootOption) (h : DeviceHandler)
    → Timed h
    → (h' : DeviceHandler) × (device_handler_cancel_default h ≡ some h')
      × Cancelled h'
      × (h'.pending_boot ≡ left_pending h)
      × (offer_all config run os h' ≡ h')
cancel_default-final config run os h timed =
    let (h', e, (off, dd, ws, tw), left, temp, devs) = cancel_default-Cancelled h timed in
    (h', e, (off, dd, ws, tw), left, offer_all-off config run os h' off)
