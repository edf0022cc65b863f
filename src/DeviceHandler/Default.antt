-- ===== src/DeviceHandler/Default.antt =====
-- discover/device-handler.c: choosing, replacing, cancelling and booting the default option.
-- A result `none` is a failed assertion of waiter_remove.
use petitboot.CString.{strcmp_equal}
use petitboot.Base.Options.{◌>>=◌}
use petitboot.Base.{
  ℕ, ◌+◌, Bool, true, false, Option, none, some, List, [], ◌∷◌, Bytes, ltb, u32, leb, ◌==◌,
  if◌then◌else◌,
}
use petitboot.Talloc.{CStr}
use petitboot.Types.{AutobootOption, Config}
use petitboot.DeviceHandler.State.{DiscoverDevice, DiscoverBootOption, DeviceHandler, BootRun}
use petitboot.DeviceHandler.Priority.{
  priority_disabled, autoboot_option_matches, default_option_priority,
}
use petitboot.DeviceHandler.Timer.{start_boot, boot_cancel, waiter_remove, default_timeout}

-- The assignments when there was no default, up to the call of default_timeout.
unfoldable pub first_default : Config → DiscoverBootOption → ℕ → DeviceHandler → DeviceHandler
first_default config opt prio handler = record handler {
  is_autoboot_default = λ p. if p == opt.address then true else handler.is_autoboot_default p;
  sec_to_boot = config.autoboot_timeout_sec;
  default_boot_option = some opt;
  default_boot_option_priority = prio;
}

-- The branch for an option that has the priority prio, within the range.
unfoldable pub take_default :
    Config → BootRun → DiscoverBootOption → ℕ → DeviceHandler → DeviceHandler
take_default config run opt prio handler = elim handler.default_boot_option [
  | some cur ↦
      if ltb prio handler.default_boot_option_priority
      then record handler {
        default_boot_option = some opt;
        default_boot_option_priority = prio;
        sec_to_boot = u32 (handler.sec_to_boot + 2);
      }
      else handler
  | none ↦ default_timeout run (first_default config opt prio handler)
]

unfoldable pub set_default : Config → BootRun → DiscoverBootOption → DeviceHandler → DeviceHandler
set_default config run opt handler =
    if handler.autoboot_enabled
    then (if leb priority_disabled (default_option_priority config handler opt)
        then handler
        else take_default config run opt (default_option_priority config handler opt) handler)
    else handler

-- The first lines: the timer goes, and autoboot with it.
unfoldable pub stop_autoboot : DeviceHandler → Option DeviceHandler
stop_autoboot handler = do
  h ← elim handler.timeout_waiter [ some w ↦ waiter_remove w handler | none ↦ some handler ]
  some (record h { timeout_waiter = none; autoboot_enabled = false })

-- `if (handler->pending_boot && handler->pending_boot_is_default)` and its block.
unfoldable pub cancel_default_boot : DeviceHandler → DeviceHandler
cancel_default_boot handler = elim handler.pending_boot [
  | none ↦ handler
  | some task ↦
      if handler.pending_boot_is_default
      then record (boot_cancel handler) { pending_boot = none; pending_boot_is_default = false }
      else handler
]

unfoldable pub device_handler_cancel_default : DeviceHandler → Option DeviceHandler
device_handler_cancel_default handler = do
  h ← stop_autoboot handler
  elim h.default_boot_option [
    | none ↦ some h
    | some opt ↦ some (record (cancel_default_boot h) { default_boot_option = none })
  ]

-- The first option of a list with this id.
unfoldable pub find_option : List DiscoverBootOption → Bytes → Option DiscoverBootOption
find_option [] id = none
find_option (opt ∷ opts) id = if strcmp_equal opt.id id then some opt else find_option opts id

unfoldable pub find_in_devices :
    (ℕ → List DiscoverBootOption) → List DiscoverDevice → Bytes → Option DiscoverBootOption
find_in_devices options [] id = none
find_in_devices options (dev ∷ devs) id = elim (find_option (options dev.address) id) [
  | some opt ↦ some opt
  | none ↦ find_in_devices options devs id
]

unfoldable pub find_boot_option_by_id : DeviceHandler → Bytes → Option DiscoverBootOption
find_boot_option_by_id handler id = find_in_devices handler.boot_options handler.devices id

-- `opt == p` of two pointers to options.
unfoldable pub same_option : Option DiscoverBootOption → Option DiscoverBootOption → Bool
same_option none none = true
same_option none (some p) = false
same_option (some o) none = false
same_option (some o) (some p) = o.address == p.address

-- The option that the command's `option_id` names.
unfoldable pub requested_option : DeviceHandler → CStr → Option DiscoverBootOption
requested_option handler none = none
requested_option handler (some []) = none
requested_option handler (some (c ∷ id)) = find_boot_option_by_id handler (c ∷ id)

-- `!change_default && handler->last_boot_option && opt != handler->last_boot_option`.
unfoldable pub boot_refused : Bool → DeviceHandler → Option DiscoverBootOption → Bool
boot_refused true handler opt = false
boot_refused false handler opt = elim handler.last_boot_option [
  | none ↦ false
  | some last ↦ if same_option opt (some last) then false else true
]

-- The end of device_handler_boot.
unfoldable pub boot_now : BootRun → DeviceHandler → DeviceHandler
boot_now run handler =
    record (start_boot run
      (elim handler.pending_boot [ none ↦ handler | some task ↦ boot_cancel handler ])) {
        pending_boot_is_default = false;
      }

-- `run` tells what boot does with the option and the command.
unfoldable pub device_handler_boot :
    (Option DiscoverBootOption → BootRun) → Bool → CStr → DeviceHandler → DeviceHandler
device_handler_boot run change_default option_id handler =
    let opt = requested_option handler option_id in
    if boot_refused change_default handler opt then handler else boot_now (run opt) handler

-- set_default on the first option of the list that is the default of its device.
unfoldable pub offer_first_default :
    Config → BootRun → List DiscoverBootOption → DeviceHandler → DeviceHandler
offer_first_default config run [] handler = handler
offer_first_default config run (opt ∷ opts) handler =
    if opt.is_default
    then set_default config run opt handler
    else offer_first_default config run opts handler

-- The loop over the devices in device_handler_apply_temp_autoboot.
unfoldable pub rescan :
    Config → BootRun → AutobootOption → List DiscoverDevice → DeviceHandler → DeviceHandler
rescan config run temp [] handler = handler
rescan config run temp (dev ∷ devs) handler = rescan config run temp devs (
    if autoboot_option_matches temp dev
    then offer_first_default config run (handler.boot_options dev.address) handler
    else handler)

-- The cancellation and the rescan.
unfoldable pub choose_again :
    Config → BootRun → AutobootOption → DeviceHandler → Option DeviceHandler
choose_again config run temp handler = do
  h ← device_handler_cancel_default handler
  some (rescan config run temp h.devices (record h { autoboot_enabled = true }))

unfoldable pub device_handler_apply_temp_autoboot :
    Config → BootRun → AutobootOption → DeviceHandler → Option DeviceHandler
device_handler_apply_temp_autoboot config run temp handler =
    let h = record handler { temp_autoboot = some temp } in
    if handler.autoboot_enabled
    then elim handler.default_boot_option [
      | none ↦ some h
      | some opt ↦
          if autoboot_option_matches temp opt.device then some h else choose_again config run temp h
    ]
    else some h

-- The loop over the options of a device that is removed.
unfoldable pub cancel_if_default : List DiscoverBootOption → DeviceHandler → Option DeviceHandler
cancel_if_default [] handler = some handler
cancel_if_default (opt ∷ opts) handler =
    if same_option (some opt) handler.default_boot_option
    then device_handler_cancel_default handler
    else cancel_if_default opts handler

-- The array without the first pointer to the device; as it is when there is none.
unfoldable pub remove_device : DiscoverDevice → List DiscoverDevice → List DiscoverDevice
remove_device device [] = []
remove_device device (dev ∷ devs) =
    if dev.address == device.address then devs else dev ∷ remove_device device devs

-- `if (device->requery_waiter) waiter_remove(device->requery_waiter)`
abbrev pub remove_requery : Option ℕ → DeviceHandler → Option DeviceHandler
remove_requery none handler = some handler
remove_requery (some w) handler = waiter_remove w handler

-- The options in the queue, the network code and the clients are not seen here.
unfoldable pub device_handler_remove : DiscoverDevice → DeviceHandler → Option DeviceHandler
device_handler_remove device handler = do
  stopped ← remove_requery device.requery_waiter handler
  h ← cancel_if_default (handler.boot_options device.address) stopped
  some (record h { devices = remove_device device h.devices })
