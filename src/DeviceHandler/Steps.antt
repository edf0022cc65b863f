-- ===== src/DeviceHandler/Steps.antt =====
-- One step of set_default and of default_timeout, branch by branch.
use petitboot.Base.{
  ℕ, zero, suc, ◌+◌, ◌≤◌, ◌<◌, ◌≡◌, refl, true, false, Option, none, some, ◌⊎◌, inl, inr, arith,
  ltb, u32,
}
use petitboot.Types.{Config}
use petitboot.DeviceHandler.State.{DiscoverBootOption, DeviceHandler, BootRun}
use petitboot.DeviceHandler.Priority.{priority_disabled, default_option_priority}
use petitboot.DeviceHandler.Timer.{register_timeout, start_boot, default_timeout}
use petitboot.DeviceHandler.Default.{first_default, take_default, set_default}

pub Option-cases : {A : Type 0} (o : Option A) → (o ≡ none) ⊎ ((a : A) × (o ≡ some a))
Option-cases none = inl refl
Option-cases (some a) = inr (a, refl)

pub positive : (n : ℕ) → 0 < n → (m : ℕ) × (n ≡ suc m)
positive zero h = absurd (omega arith)
positive (suc m) h = (m, refl)

pub default_timeout-pending :
    (run : BootRun) (h : DeviceHandler) (d : DiscoverBootOption) (task : ℕ)
    → h.default_boot_option ≡ some d
    → h.pending_boot ≡ some task
    → default_timeout run h ≡ h
unfolding default_timeout
default_timeout-pending run h d task dd busy = ground arith

pub default_timeout-counting :
    (run : BootRun) (h : DeviceHandler) (d : DiscoverBootOption) (n : ℕ)
    → h.default_boot_option ≡ some d
    → h.pending_boot ≡ none
    → h.sec_to_boot ≡ suc n
    → default_timeout run h
      ≡ register_timeout (record h { last_boot_option = some d; sec_to_boot = n })
unfolding default_timeout register_timeout
default_timeout-counting run h d n dd free sec = ground arith

pub set_default-out :
    (config : Config) (run : BootRun) (o : DiscoverBootOption) (h : DeviceHandler)
    → priority_disabled ≤ default_option_priority config h o
    → set_default config run o h ≡ h
unfolding set_default
set_default-out config run o h e = ground arith

pub set_default-taken :
    (config : Config) (run : BootRun) (o : DiscoverBootOption) (h : DeviceHandler)
    → h.autoboot_enabled ≡ true
    → default_option_priority config h o < priority_disabled
    → set_default config run o h ≡ take_default config run o (default_option_priority config h o) h
unfolding set_default
set_default-taken config run o h e lt = ground arith

pub take_default-first :
    (config : Config) (run : BootRun) (o : DiscoverBootOption) (prio : ℕ) (h : DeviceHandler)
    → h.default_boot_option ≡ none
    → take_default config run o prio h ≡ default_timeout run (first_default config o prio h)
unfolding take_default
take_default-first config run o prio h n = rw n refl

pub default_timeout-boot :
    (run : BootRun) (d : DiscoverBootOption) (h : DeviceHandler)
    → h.default_boot_option ≡ some d
    → h.pending_boot ≡ none
    → h.sec_to_boot ≡ 0
    → default_timeout run h
      ≡ record (start_boot run (record h { last_boot_option = some d; timeout_waiter = none })) {
        pending_boot_is_default = true;
      }
unfolding default_timeout
default_timeout-boot run d h dd free sec = ground arith

pub default_timeout-none :
    (run : BootRun) (h : DeviceHandler) → h.default_boot_option ≡ none → default_timeout run h ≡ h
unfolding default_timeout
default_timeout-none run h e = ground arith

pub take_default-beaten :
    (config : Config) (run : BootRun) (o d : DiscoverBootOption) (prio : ℕ) (h : DeviceHandler)
    → h.default_boot_option ≡ some d
    → ltb prio h.default_boot_option_priority ≡ true
    → take_default config run o prio h ≡ record h {
      default_boot_option = some o;
      default_boot_option_priority = prio;
      sec_to_boot = u32 (h.sec_to_boot + 2);
    }
unfolding take_default
take_default-beaten config run o d prio h dd less = ground arith

pub take_default-stays :
    (config : Config) (run : BootRun) (o d : DiscoverBootOption) (prio : ℕ) (h : DeviceHandler)
    → h.default_boot_option ≡ some d
    → ltb prio h.default_boot_option_priority ≡ false
    → take_default config run o prio h ≡ h
unfolding take_default
take_default-stays config run o d prio h dd more = ground arith
