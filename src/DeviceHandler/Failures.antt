-- ===== src/DeviceHandler/Failures.antt =====
-- What a boot, started by a client or by the timer, leaves in the handler.
use petitboot.Base.{
  ℕ, ◌≡◌, refl, ap, ◌∙◌, true, false, Option, none, some, List, [], ◌∷◌, ◌⊎◌, inl, inr, Bool-cases,
  ◌==◌, arith,
}
use petitboot.Talloc.{CStr}
use petitboot.Types.{Config, status_info, status_error}
use petitboot.DeviceHandler.State.{DiscoverBootOption, DeviceHandler, BootRun, reports_error}
use petitboot.DeviceHandler.Timer.{
  device_handler_boot_status_cb, report_all, start_boot, remove_from, waiter_remove,
  default_timeout, fire,
}
use petitboot.DeviceHandler.Default.{
  first_default, take_default, set_default, stop_autoboot, device_handler_cancel_default,
  requested_option, same_option, boot_refused, boot_now, device_handler_boot,
}
use petitboot.DeviceHandler.Steps.{default_timeout-pending}
use petitboot.DeviceHandler.Countdown.{Counting, before_boot, booted_state, fire-booted_state}

fire-pending :
    (run : BootRun) (d : DiscoverBootOption) (w task : ℕ) (h : DeviceHandler)
    → h.default_boot_option ≡ some d
    → h.pending_boot ≡ some task
    → h.waiters ≡ w ∷ []
    → fire run w h ≡ some (record h { waiters = [] })
unfolding fire waiter_remove remove_from
fire-pending run d w task h dd busy ws =
    rw (fire, default_timeout-pending run h d task dd busy) (ground arith)

cancel_default-stale :
    (h : DeviceHandler) (w : ℕ)
    → h.timeout_waiter ≡ some w
    → h.waiters ≡ []
    → device_handler_cancel_default h ≡ none
unfolding device_handler_cancel_default stop_autoboot waiter_remove remove_from
cancel_default-stale h w tw ws = ground arith

boot_now-started :
    (run : BootRun) (task : ℕ) (h : DeviceHandler)
    → run.reports ≡ status_info ∷ []
    → run.task ≡ some task
    → h.pending_boot ≡ none
    → boot_now run h ≡ record h { pending_boot = some task; pending_boot_is_default = false }
unfolding boot_now start_boot report_all device_handler_boot_status_cb
boot_now-started run task h info started free = ground arith

boot-unlimited :
    (run : Option DiscoverBootOption → BootRun) (id : CStr) (h : DeviceHandler)
    → device_handler_boot run true id h ≡ boot_now (run (requested_option h id)) h
unfolding device_handler_boot boot_refused
boot-unlimited run id h = refl

boot-refused :
    (run : Option DiscoverBootOption → BootRun) (id : CStr) (h : DeviceHandler)
    → boot_refused false h (requested_option h id) ≡ true
    → device_handler_boot run false id h ≡ h
unfolding device_handler_boot
boot-refused run id h e = rw (device_handler_boot, e) refl

boot-granted :
    (run : Option DiscoverBootOption → BootRun) (id : CStr) (h : DeviceHandler)
    → boot_refused false h (requested_option h id) ≡ false
    → device_handler_boot run false id h ≡ boot_now (run (requested_option h id)) h
unfolding device_handler_boot
boot-granted run id h e = rw (device_handler_boot, e) refl

-- An option that is not refused is the last default.
refused-or-last :
    (last : DiscoverBootOption) (h : DeviceHandler) (opt : Option DiscoverBootOption)
    → h.last_boot_option ≡ some last
    → (boot_refused false h opt ≡ true)
      ⊎ ((o : DiscoverBootOption) × (opt ≡ some o)
          × (o.address ≡ last.address)
          × (boot_refused false h opt ≡ false))
unfolding boot_refused same_option
refused-or-last last h none e = inl (ground arith)
refused-or-last last h (some o) e = elim (Bool-cases (o.address == last.address)) [
  | inl same ↦ inr (o, refl, ground arith, ground arith)
  | inr other ↦ inl (ground arith)
]

-- When a default counts down and a client that may change the default has something booted, of
-- which boot reports no more than that it begins, and the timer fires before the boot is done,
-- then the handler still holds the timer that waiter_poll took away, and the next
-- device_handler_cancel_default fails the assertion of waiter_remove.
pub device_handler_boot-stale :
    (run : Option DiscoverBootOption → BootRun) (later : BootRun) (id : CStr)
    (d : DiscoverBootOption) (n w task : ℕ) (h : DeviceHandler)
    → Counting d n w h
    → (run (requested_option h id)).reports ≡ status_info ∷ []
    → (run (requested_option h id)).task ≡ some task
    → (h' : DeviceHandler) × (fire later w (device_handler_boot run true id h) ≡ some h')
      × (device_handler_cancel_default h' ≡ none)
device_handler_boot-stale run later id d n w task h (dd, free, sec, ws, tw, lt) info started =
    let r = run (requested_option h id) in
    let b = record h { pending_boot = some task; pending_boot_is_default = false } in
    (
      record b { waiters = [] },
      ap (fire later w) (boot-unlimited run id h ∙ boot_now-started r task h info started free)
          ∙ fire-pending later d w task b dd refl ws,
      cancel_default-stale (record b { waiters = [] }) w tw refl,
    )

-- A client that may not change the default, once the handler has a last default, either changes
-- nothing or has an option booted that is the last default.
device_handler_boot-unprivileged :
    (run : Option DiscoverBootOption → BootRun) (id : CStr) (last : DiscoverBootOption)
    (h : DeviceHandler)
    → h.last_boot_option ≡ some last
    → (device_handler_boot run false id h ≡ h)
      ⊎ ((o : DiscoverBootOption) × (requested_option h id ≡ some o)
          × (o.address ≡ last.address)
          × (device_handler_boot run false id h ≡ boot_now (run (some o)) h))
device_handler_boot-unprivileged run id last h e =
    elim (refused-or-last last h (requested_option h id) e) [
      | inl refused ↦ inl (boot-refused run id h refused)
      | inr granted ↦
          let (o, found, same, go) = granted in
          inr (o, found, same, boot-granted run id h go ∙ ap (λ opt. boot_now (run opt) h) found)
    ]

report_all-none :
    (types : List ℕ) (h : DeviceHandler)
    → h.default_boot_option ≡ none
    → (report_all types h).default_boot_option ≡ none
unfolding report_all device_handler_boot_status_cb
report_all-none [] h off = off
report_all-none (type ∷ types) h off =
    report_all-none types (device_handler_boot_status_cb type h) (ground arith)

report_all-error :
    (types : List ℕ) (h : DeviceHandler)
    → reports_error types ≡ true
    → (report_all types h).default_boot_option ≡ none
unfolding report_all device_handler_boot_status_cb reports_error
report_all-error [] h e = cc
report_all-error (type ∷ types) h e = elim (Bool-cases (type == status_error)) [
  | inl error ↦ report_all-none types (device_handler_boot_status_cb type h) (ground arith)
  | inr other ↦ report_all-error types (device_handler_boot_status_cb type h) (ground arith)
]

pending-no-timer :
    (config : Config) (run : BootRun) (o : DiscoverBootOption) (task : ℕ) (h : DeviceHandler)
    → h.pending_boot ≡ some task
    → h.waiters ≡ []
    → (set_default config run o h).waiters ≡ []
unfolding set_default take_default first_default default_timeout
pending-no-timer config run o task h busy ws = ground arith

-- When the timer of the default d expires and boot reports an error before it returns, and still
-- returns a task, then the handler has no default and a boot that stays pending: an option that
-- set_default is offered next gets no timer.
pub fire-failed :
    (config : Config) (run next : BootRun) (d o : DiscoverBootOption) (w task : ℕ)
    (h : DeviceHandler)
    → Counting d 0 w h
    → reports_error run.reports ≡ true
    → run.task ≡ some task
    → (h' : DeviceHandler) × (fire run w h ≡ some h')
      × (h'.default_boot_option ≡ none)
      × (h'.pending_boot ≡ some task)
      × ((set_default config next o h').waiters ≡ [])
unfolding start_boot
fire-failed config run next d o w task h c error started =
    let b = booted_state run d h in
    (
      b,
      fire-booted_state run d w h c,
      report_all-error run.reports (before_boot d h) error,
      started,
      pending-no-timer config next o task b started refl,
    )
