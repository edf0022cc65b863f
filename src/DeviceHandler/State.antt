-- ===== src/DeviceHandler/State.antt =====
-- discover/device-handler.h and discover/device-handler.c: the part of the handler's state that
-- decides what is booted. A pointer is compared by the `address` of its object; a field of a
-- shared object that changes is a function of the address (`boot_options`,
-- `is_autoboot_default`). Of the waitset the model keeps `waiters`, the registered timers, and
-- `next_waiter`, the name that the next timer gets.
use petitboot.Base.{ℕ, Bool, true, false, Option, List, [], ◌∷◌, Bytes, ◌==◌, if◌then◌else◌}
use petitboot.Talloc.{CStr}
use petitboot.Types.{AutobootOption, status_error}

-- `type` is the type of the `struct device` it points to; `requery_waiter` is the name of its timer,
-- if it has one.
pub record DiscoverDevice : Type 0 where
  pub address : ℕ
  pub uuid : CStr
  pub type : ℕ
  pub requery_waiter : Option ℕ

-- `id` and `is_default` are those of the `struct boot_option` it points to.
pub record DiscoverBootOption : Type 0 where
  pub address : ℕ
  pub device : DiscoverDevice
  pub id : Bytes
  pub is_default : Bool

pub record DeviceHandler : Type 0 where
  pub devices : List DiscoverDevice
  pub boot_options : ℕ → List DiscoverBootOption
  pub is_autoboot_default : ℕ → Bool
  pub waiters : List ℕ
  pub next_waiter : ℕ
  pub timeout_waiter : Option ℕ
  pub autoboot_enabled : Bool
  pub sec_to_boot : ℕ
  pub temp_autoboot : Option AutobootOption
  pub default_boot_option : Option DiscoverBootOption
  pub last_boot_option : Option DiscoverBootOption
  pub default_boot_option_priority : ℕ
  pub pending_boot : Option ℕ
  pub pending_boot_is_default : Bool

-- What a call of boot (discover/boot.c) does to the handler: the types of the statuses that it
-- reports before it returns, in their order, and the task that it returns.
pub record BootRun : Type 0 where
  pub reports : List ℕ
  pub task : Option ℕ

-- An error is among the reports.
unfoldable pub reports_error : List ℕ → Bool
reports_error [] = false
reports_error (type ∷ types) = if type == status_error then true else reports_error types
