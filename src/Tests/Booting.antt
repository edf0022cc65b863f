-- ===== src/Tests/Booting.antt =====
-- Examples of discover/device-handler.c: a disk and a network device with an option each.
use petitboot.CString.{codes}
use petitboot.Base.{
  inl, ◌≡◌, refl, true, false, none, some, [], ◌∷◌, ◌⊎◌, ◌==◌, if◌then◌else◌, All, arith,
}
use petitboot.Types.{by_type, Config, status_info, status_error}
use petitboot.DeviceHandler.State.{
  DiscoverDevice, DiscoverBootOption, DeviceHandler, BootRun, reports_error,
}
use petitboot.DeviceHandler.Priority.{
  autoboot_option_matches, default_option_priority, autoboot_option_priority,
  autoboot_priority_from, configured_priority,
}
use petitboot.DeviceHandler.Default.{
  set_default, device_handler_boot, device_handler_cancel_default,
  device_handler_apply_temp_autoboot, device_handler_remove,
}
use petitboot.DeviceHandler.Timer.{fire}
use petitboot.DeviceHandler.Choice.{offer_all, least, offer_all-least}
use petitboot.DeviceHandler.Countdown.{countdown, Booted, set_default-boots}
use petitboot.DeviceHandler.Cancel.{Cancelled, cancel_default-final}
use petitboot.DeviceHandler.Failures.{device_handler_boot-stale, fire-failed}
use petitboot.DeviceHandler.Override.{Matched, apply_temp_autoboot-Fits}
use petitboot.DeviceHandler.Removal.{NotDefault, LostFirst, device_handler_remove-NotDefault}
use petitboot.DeviceHandler.Order.{FirstMatch, Misses, autoboot_option_priority-first}
use petitboot.Boot.{
  load_ok, World, BootResource, start_until, start_each, load_pending, any_pending, check_load,
  check_loads, kexec_load, load_and_reboot, hooks_and_check, boot_process, start_loads,
  start_signed, boot_image, boot_named, boot,
}
use petitboot.Boot.Reports.{Answered, boot-Answered, start_loads-error}
use petitboot.Tests.Data.{text}
use petitboot.Tests.Configurations.{settings}

abbrev sda : DiscoverDevice
sda = record { address = 1; uuid = text "1234"; type = 1; requery_waiter = none }

abbrev eth0 : DiscoverDevice
eth0 = record { address = 2; uuid = text "5678"; type = 0; requery_waiter = none }

abbrev disk_option : DiscoverBootOption
disk_option = record { address = 11; device = sda; id = codes "sda@linux"; is_default = true }

abbrev net_option : DiscoverBootOption
net_option = record { address = 12; device = eth0; id = codes "eth0@pxe"; is_default = true }

-- Autoboot is enabled, and nothing has happened yet.
abbrev idle : DeviceHandler
idle = record {
  devices = sda ∷ eth0 ∷ [];
  boot_options = λ d. if d == 1 then disk_option ∷ [] else net_option ∷ [];
  is_autoboot_default = λ p. false;
  waiters = [];
  next_waiter = 7;
  timeout_waiter = none;
  autoboot_enabled = true;
  sec_to_boot = 0;
  temp_autoboot = none;
  default_boot_option = none;
  last_boot_option = none;
  default_boot_option_priority = 0;
  pending_boot = none;
  pending_boot_is_default = false;
}

-- The disk's option is the default, with 2 seconds left.
abbrev waiting : DeviceHandler
waiting = record idle {
  waiters = 7 ∷ [];
  next_waiter = 8;
  timeout_waiter = some 7;
  sec_to_boot = 2;
  default_boot_option = some disk_option;
  last_boot_option = some disk_option;
  default_boot_option_priority = 4;
}

-- The network first, then any device, and 3 seconds.
abbrev network_first : Config
network_first = record settings {
  autoboot_timeout_sec = 3;
  autoboot_opts = by_type 0 ∷ by_type 4 ∷ [];
  ipmi_bootdev = 0;
}

abbrev started : BootRun
started = record { reports = status_info ∷ []; task = some 99 }

abbrev failed : BootRun
failed = record { reports = status_info ∷ status_error ∷ []; task = some 99 }

network_wins :
    (offer_all network_first started (disk_option ∷ net_option ∷ []) idle).default_boot_option
    ≡ least (default_option_priority network_first idle) (disk_option ∷ net_option ∷ [])
network_wins =
    offer_all-least network_first started (disk_option ∷ net_option ∷ []) idle refl refl
      (omega arith)

network_least :
    least (default_option_priority network_first idle) (disk_option ∷ net_option ∷ [])
    ≡ some net_option
unfolding least default_option_priority configured_priority autoboot_option_priority
    autoboot_priority_from autoboot_option_matches
network_least = refl

disk_priority : default_option_priority network_first idle disk_option ≡ 4
unfolding default_option_priority configured_priority autoboot_option_priority
    autoboot_priority_from autoboot_option_matches
disk_priority = refl

disk_boots :
    (h' : DeviceHandler) × (countdown started 3 (set_default network_first started disk_option idle)
      ≡ some h')
    × Booted started disk_option h'
disk_boots =
    set_default-boots network_first started disk_option 2 idle refl refl refl refl refl
      (omega (arith, disk_priority))

waiting_given_up :
    (h' : DeviceHandler) × (device_handler_cancel_default waiting ≡ some h')
    × Cancelled h'
    × (h'.pending_boot ≡ none)
    × (offer_all network_first started (net_option ∷ []) h' ≡ h')
waiting_given_up = cancel_default-final network_first started (net_option ∷ []) waiting refl

waiting_stale :
    (h' : DeviceHandler) × (fire started 7 (device_handler_boot (λ o. started) true none waiting)
      ≡ some h')
    × (device_handler_cancel_default h' ≡ none)
waiting_stale =
    device_handler_boot-stale (λ o. started) started none disk_option 2 7 99 waiting
      (refl, refl, refl, refl, refl, omega arith) refl refl

waiting_error :
    (h' : DeviceHandler) × (fire failed 7 (record waiting { sec_to_boot = 0 }) ≡ some h')
    × (h'.default_boot_option ≡ none)
    × (h'.pending_boot ≡ some 99)
    × ((set_default network_first started net_option h').waiters ≡ [])
unfolding reports_error
waiting_error =
    fire-failed network_first failed started disk_option net_option 7 99
      (record waiting { sec_to_boot = 0 }) (refl, refl, refl, refl, refl, omega arith) refl refl

net_priority : default_option_priority network_first waiting net_option ≡ 3
unfolding default_option_priority configured_priority autoboot_option_priority
    autoboot_priority_from autoboot_option_matches
net_priority = refl

waiting_overridden :
    (h' : DeviceHandler) × (device_handler_apply_temp_autoboot network_first started
        (by_type 0)
        waiting
      ≡ some h')
    × (h'.autoboot_enabled ≡ true)
    × (h'.temp_autoboot ≡ some (by_type 0))
    × Matched (by_type 0) h'.default_boot_option
waiting_overridden = apply_temp_autoboot-Fits network_first (by_type 0) started waiting refl refl

-- The disk with a requery timer.
abbrev requeried : DiscoverDevice
requeried = record sda { requery_waiter = some 8 }

abbrev waiting_requery : DeviceHandler
waiting_requery = record waiting { waiters = 8 ∷ waiting.waiters }

waiting_removed :
    (h' : DeviceHandler) × (device_handler_remove requeried waiting_requery ≡ some h')
    × LostFirst requeried (sda ∷ eth0 ∷ []) h'.devices
    × All (NotDefault h'.default_boot_option) (disk_option ∷ [])
    × ((h'.default_boot_option ≡ none) ⊎ (h'.default_boot_option ≡ some disk_option))
waiting_removed = device_handler_remove-NotDefault requeried waiting_requery (inl refl)

disk_order :
    FirstMatch sda
      (by_type 0 ∷ by_type 4 ∷ [])
      (autoboot_option_priority network_first disk_option)
      0
    ⊎ (All (Misses sda) (by_type 0 ∷ by_type 4 ∷ [])
        × (autoboot_option_priority network_first disk_option ≡ none))
disk_order = autoboot_option_priority-first network_first disk_option

-- Everything is there at once, nothing is signed, and kexec works.
abbrev local_files : World
local_files = record {
  pb_url_parse = λ s. some s;
  get_signature_url = λ s. some s;
  load_url_async = λ name url. some load_ok;
  has_hooks = false;
  check_message = false;
  check_result = true;
  validate_boot_files = 0;
  kexec_run = 0;
  kexec_reboot = 0;
  verify_signature = false;
  decrypt_files = false;
  task = 99;
}

abbrev kernel : BootResource
kernel = record { name = 0; url = codes "file:///vmlinux" }

kernel_error :
    ((start_loads local_files (kernel ∷ []) []).task ≡ some 99)
    × (reports_error (start_loads local_files (kernel ∷ []) []).reports ≡ true)
unfolding start_until start_each any_pending load_pending
kernel_error = start_loads-error local_files kernel [] [] refl refl refl

kernel_result : Answered (
    boot local_files
      (record { image = some kernel.url; initrd = none; dtb = none; args_sig = none })
      none)
kernel_result =
    boot-Answered local_files
      (record { image = some kernel.url; initrd = none; dtb = none; args_sig = none }) none

-- A boot that works reports an error after the download.
kernel_reports :
    (boot local_files
      (record { image = some kernel.url; initrd = none; dtb = none; args_sig = none })
      none).reports
    ≡ status_info ∷ status_error ∷ status_info ∷ status_info ∷ []
unfolding boot boot_named boot_image start_signed start_loads start_until start_each any_pending
    load_pending boot_process check_loads check_load hooks_and_check load_and_reboot kexec_load
kernel_reports = refl
