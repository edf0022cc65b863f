-- ===== src/DeviceHandler/Countdown.antt =====
-- The seconds from the choice of a default to its boot, and what ends them.
use petitboot.Base.Options.{◌>>=◌}
use petitboot.Base.{
  ℕ, zero, suc, ◌+◌, ◌<◌, ◌≡◌, refl, ◌∙◌, true, Option, none, some, List, [], ◌∷◌, arith,
}
use petitboot.Types.{Config}
use petitboot.DeviceHandler.State.{DiscoverBootOption, DeviceHandler, BootRun}
use petitboot.DeviceHandler.Priority.{priority_disabled, default_option_priority}
use petitboot.DeviceHandler.Timer.{
  device_handler_boot_status_cb, report_all, start_boot, register_timeout, remove_from,
  waiter_remove, fire,
}
use petitboot.DeviceHandler.Default.{first_default, take_default, set_default}
use petitboot.DeviceHandler.Steps.{
  set_default-taken, take_default-first, default_timeout-counting, default_timeout-boot,
}

-- The timer of the handler fires k times.
unfoldable pub countdown : BootRun → ℕ → DeviceHandler → Option DeviceHandler
countdown run zero h = some h
countdown run (suc k) h = do w ← h.timeout_waiter; h' ← fire run w h; countdown run k h'

-- d is the default, no boot is under way, n seconds are left, and w is the only timer.
abbrev pub Counting : DiscoverBootOption → ℕ → ℕ → DeviceHandler → Type 0
Counting d n w h =
    (h.default_boot_option ≡ some d)
    × (h.pending_boot ≡ none)
    × (h.sec_to_boot ≡ n)
    × (h.waiters ≡ w ∷ [])
    × (h.timeout_waiter ≡ some w)
    × (w < h.next_waiter)

-- The default d was handed to boot, with the reports and the task of the run, and no timer is left.
abbrev pub Booted : BootRun → DiscoverBootOption → DeviceHandler → Type 0
Booted run d h =
    (h.pending_boot ≡ run.task)
    × (h.pending_boot_is_default ≡ true)
    × (h.last_boot_option ≡ some d)
    × (h.waiters ≡ [])
    × (h.timeout_waiter ≡ none)

-- One second less, and a new timer.
abbrev pub second_later : DiscoverBootOption → ℕ → DeviceHandler → DeviceHandler
second_later d n h = record h {
  last_boot_option = some d;
  sec_to_boot = n;
  waiters = h.next_waiter ∷ [];
  next_waiter = suc h.next_waiter;
  timeout_waiter = some h.next_waiter;
}

fire-second_later :
    (run : BootRun) (d : DiscoverBootOption) (n w : ℕ) (h : DeviceHandler)
    → Counting d (suc n) w h
    → fire run w h ≡ some (second_later d n h)
unfolding fire waiter_remove remove_from register_timeout
fire-second_later run d n w h (dd, free, sec, ws, tw, lt) =
    rw (fire, default_timeout-counting run h d n dd free sec) (ground arith)

report_all-kept :
    (types : List ℕ) (h : DeviceHandler)
    → ((report_all types h).waiters ≡ h.waiters)
      × ((report_all types h).timeout_waiter ≡ h.timeout_waiter)
      × ((report_all types h).last_boot_option ≡ h.last_boot_option)
      × ((report_all types h).autoboot_enabled ≡ h.autoboot_enabled)
unfolding report_all device_handler_boot_status_cb
report_all-kept [] h = (refl, refl, refl, refl)
report_all-kept (type ∷ types) h =
    ground (arith, report_all-kept types (device_handler_boot_status_cb type h))

-- The timer w is taken off the waitset of a handler that has no other.
removed :
    (w : ℕ) (h : DeviceHandler)
    → h.waiters ≡ w ∷ []
    → waiter_remove w h ≡ some (record h { waiters = [] })
unfolding waiter_remove remove_from
removed w h ws = rw (waiter_remove, ws) (ground arith)

-- What boot sees of the handler, and what the handler is when the timer is gone.
abbrev pub before_boot : DiscoverBootOption → DeviceHandler → DeviceHandler
before_boot d h = record h { last_boot_option = some d; timeout_waiter = none }

abbrev pub booted_state : BootRun → DiscoverBootOption → DeviceHandler → DeviceHandler
booted_state run d h = record (start_boot run (before_boot d h)) {
  pending_boot_is_default = true;
  waiters = [];
}

pub fire-booted_state :
    (run : BootRun) (d : DiscoverBootOption) (w : ℕ) (h : DeviceHandler)
    → Counting d 0 w h
    → fire run w h ≡ some (booted_state run d h)
unfolding fire start_boot
fire-booted_state run d w h (dd, free, sec, ws, tw, lt) =
    let (kept, timer, last, on) = report_all-kept run.reports (before_boot d h) in
    rw (fire, default_timeout-boot run d h dd free sec)
      (removed w (record (start_boot run (before_boot d h)) { pending_boot_is_default = true })
        (kept ∙ ws))

fire-boot :
    (run : BootRun) (d : DiscoverBootOption) (w : ℕ) (h : DeviceHandler)
    → Counting d 0 w h
    → (h' : DeviceHandler) × (fire run w h ≡ some h') × Booted run d h'
unfolding start_boot
fire-boot run d w h c =
    let (kept, timer, last, on) = report_all-kept run.reports (before_boot d h) in
    (booted_state run d h, fire-booted_state run d w h c, (refl, refl, last, refl, timer))

countdown-step :
    (run : BootRun) (k w : ℕ) (h h' : DeviceHandler)
    → h.timeout_waiter ≡ some w
    → fire run w h ≡ some h'
    → countdown run (suc k) h ≡ countdown run k h'
unfolding countdown
countdown-step run k w h h' tw e = cc

-- While a default counts down with n seconds left and no boot is under way, the timer can fire k
-- times for every k up to n: n - k seconds are left then, one timer is registered, the default
-- is the same, and no boot was started.
countdown-counts :
    (run : BootRun) (d : DiscoverBootOption) (k n w : ℕ) (h : DeviceHandler)
    → Counting d (k + n) w h
    → (h' : DeviceHandler) × (w' : ℕ) × (countdown run k h ≡ some h') × Counting d n w' h'
unfolding countdown
countdown-counts run d zero n w h (dd, free, sec, ws, tw, lt) =
    (h, w, refl, (dd, free, omega arith, ws, tw, lt))
countdown-counts run d (suc k) n w h (dd, free, sec, ws, tw, lt) =
    let (h', w', e, c) =
      countdown-counts run d k n h.next_waiter (second_later d (k + n) h)
        (dd, free, refl, refl, refl, omega arith) in
    let fired = fire-second_later run d (k + n) w h (dd, free, omega arith, ws, tw, lt) in
    (h', w', countdown-step run k w h (second_later d (k + n) h) tw fired ∙ e, c)

-- A default with n seconds left, no boot under way and its one timer registered is handed to boot
-- when the timer has fired n + 1 times, and no timer is left then.
countdown-boots :
    (run : BootRun) (d : DiscoverBootOption) (n w : ℕ) (h : DeviceHandler)
    → Counting d n w h
    → (h' : DeviceHandler) × (countdown run (suc n) h ≡ some h') × Booted run d h'
unfolding countdown
countdown-boots run d zero w h (dd, free, sec, ws, tw, lt) =
    let (h', e, b) = fire-boot run d w h (dd, free, sec, ws, tw, lt) in
    (h', countdown-step run 0 w h h' tw e, b)
countdown-boots run d (suc n) w h (dd, free, sec, ws, tw, lt) =
    let (h', e, b) =
      countdown-boots run d n h.next_waiter (second_later d n h)
        (dd, free, refl, refl, refl, omega arith) in
    let fired = fire-second_later run d n w h (dd, free, sec, ws, tw, lt) in
    (h', countdown-step run (suc n) w h (second_later d n h) tw fired ∙ e, b)

take_default-Counting :
    (config : Config) (run : BootRun) (o : DiscoverBootOption) (n prio : ℕ) (h : DeviceHandler)
    → h.default_boot_option ≡ none
    → h.pending_boot ≡ none
    → h.waiters ≡ []
    → config.autoboot_timeout_sec ≡ suc n
    → Counting o n h.next_waiter (take_default config run o prio h)
unfolding first_default register_timeout
take_default-Counting config run o n prio h none_yet free ws sec =
    rw
      (
        take_default-first config run o prio h none_yet,
        default_timeout-counting run (first_default config o prio h) o n refl free sec,
      )
      (refl, free, refl, rw ws refl, refl, omega arith)

-- When autoboot is enabled, no default is set, no boot is under way, no timer is registered and
-- the configured timeout is n + 1 seconds, set_default on an option whose priority is not
-- disabled leads to its boot after n + 1 firings of the timer.
pub set_default-boots :
    (config : Config) (run : BootRun) (o : DiscoverBootOption) (n : ℕ) (h : DeviceHandler)
    → h.autoboot_enabled ≡ true
    → h.default_boot_option ≡ none
    → h.pending_boot ≡ none
    → h.waiters ≡ []
    → config.autoboot_timeout_sec ≡ suc n
    → default_option_priority config h o < priority_disabled
    → (h' : DeviceHandler) × (countdown run (suc n) (set_default config run o h) ≡ some h')
      × Booted run o h'
set_default-boots config run o n h on none_yet free ws sec lt =
    rw (set_default-taken config run o h on lt) (
      countdown-boots run o n h.next_waiter
        (take_default config run o (default_option_priority config h o) h)
        (take_default-Counting config run o n (default_option_priority config h o) h none_yet free
          ws sec))
