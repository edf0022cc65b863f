-- ===== src/DeviceHandler/Timer.antt =====
-- discover/device-handler.c: the countdown, and what a boot that is started or cancelled does to
-- the handler. lib/waiter/waiter.c: registering, removing and firing a timer. The messages of
-- the countdown are left out.
use petitboot.Base.Options.{◌>>=◌}
use petitboot.Base.{ℕ, zero, suc, true, Option, none, some, List, [], ◌∷◌, ◌==◌, if◌then◌else◌}
use petitboot.Types.{status_error}
use petitboot.DeviceHandler.State.{DeviceHandler, BootRun}

unfoldable pub device_handler_boot_status_cb : ℕ → DeviceHandler → DeviceHandler
device_handler_boot_status_cb type handler =
    if type == status_error
    then record handler { pending_boot = none; default_boot_option = none }
    else handler

-- The callback for each report, the first one first.
unfoldable pub report_all : List ℕ → DeviceHandler → DeviceHandler
report_all [] handler = handler
report_all (type ∷ types) handler = report_all types (device_handler_boot_status_cb type handler)

-- `handler->pending_boot = boot(...)`.
unfoldable pub start_boot : BootRun → DeviceHandler → DeviceHandler
start_boot run handler = record (report_all run.reports handler) { pending_boot = run.task }

-- boot_cancel reports an error; the clean-up of the task's downloads is not seen here.
unfoldable pub boot_cancel : DeviceHandler → DeviceHandler
boot_cancel handler = device_handler_boot_status_cb status_error handler

-- `handler->timeout_waiter = waiter_register_timeout(...)`.
unfoldable pub register_timeout : DeviceHandler → DeviceHandler
register_timeout handler = record handler {
  waiters = handler.next_waiter ∷ handler.waiters;
  next_waiter = suc handler.next_waiter;
  timeout_waiter = some handler.next_waiter;
}

-- The waiters without w; none when w is not one of them, where the assertion fails.
unfoldable pub remove_from : ℕ → List ℕ → Option (List ℕ)
remove_from w [] = none
remove_from w (v ∷ waiters) =
    if v == w then some waiters else (do rest ← remove_from w waiters; some (v ∷ rest))

unfoldable pub waiter_remove : ℕ → DeviceHandler → Option DeviceHandler
waiter_remove w handler = do
  rest ← remove_from w handler.waiters
  some (record handler { waiters = rest })

unfoldable pub default_timeout : BootRun → DeviceHandler → DeviceHandler
default_timeout run handler = elim handler.default_boot_option [
  | none ↦ handler
  | some opt ↦ elim handler.pending_boot [
    | some task ↦ handler
    | none ↦ elim handler.sec_to_boot [
      | suc sec ↦
          register_timeout (record handler { last_boot_option = some opt; sec_to_boot = sec })
      | zero ↦
          record (start_boot run
            (record handler { last_boot_option = some opt; timeout_waiter = none })) {
              pending_boot_is_default = true;
            }
    ]
  ]
]

-- What waiter_poll does for the timer w of this handler once its second is over.
unfoldable pub fire : BootRun → ℕ → DeviceHandler → Option DeviceHandler
fire run w handler = waiter_remove w (default_timeout run handler)
