-- ===== src/DeviceHandler/Priority.antt =====
-- discover/device-handler.c: the priority of a boot option that is the default of its device.
use petitboot.CString.{strcmp_equal}
use petitboot.Base.{
  ℕ, suc, ◌+◌, Bool, false, ◌||◌, Option, none, some, List, [], ◌∷◌, ltb, ◌==◌, if◌then◌else◌,
}
use petitboot.Talloc.{CStr}
use petitboot.Types.{AutobootOption, by_type, by_uuid, boot_device_uuid, Config}
use petitboot.DeviceHandler.State.{DiscoverDevice, DiscoverBootOption, DeviceHandler}

-- `enum default_priority`.
abbrev pub priority_temp_user : ℕ
priority_temp_user = 1

abbrev pub priority_remote : ℕ
priority_remote = 2

abbrev pub priority_local_first : ℕ
priority_local_first = 3

abbrev pub priority_disabled : ℕ
priority_disabled = 255

-- `device_type_map`: an `enum ipmi_bootdev` and an `enum device_type` per row.
abbrev pub device_type_map : List (ℕ × ℕ)
device_type_map = (1, 0) ∷ (2, 1) ∷ (2, 2) ∷ (5, 3) ∷ []

-- The loop over the rows that are left.
abbrev pub type_map_matches : List (ℕ × ℕ) → ℕ → ℕ → Bool
type_map_matches [] ipmi_type device_type = false
type_map_matches ((i, d) ∷ rows) ipmi_type device_type =
    if d == device_type then i == ipmi_type else type_map_matches rows ipmi_type device_type

abbrev pub ipmi_device_type_matches : ℕ → ℕ → Bool
ipmi_device_type_matches ipmi_type device_type =
    type_map_matches device_type_map ipmi_type device_type

-- strcmp is not defined on a null pointer, which the code does not look for: here it matches
-- nothing.
abbrev pub uuid_equal : CStr → CStr → Bool
uuid_equal none v = false
uuid_equal (some u) none = false
uuid_equal (some u) (some v) = strcmp_equal u v

abbrev pub device_type_any : ℕ
device_type_any = 4

unfoldable pub autoboot_option_matches : AutobootOption → DiscoverDevice → Bool
autoboot_option_matches (by_type t) dev = (t == dev.type) || (t == device_type_any)
autoboot_option_matches (by_uuid b u) dev =
    if b == boot_device_uuid then uuid_equal u dev.uuid else false

-- The loop of autoboot_option_priority from the entry i on; `none` for its -1.
unfoldable pub autoboot_priority_from : List AutobootOption → ℕ → DiscoverDevice → Option ℕ
autoboot_priority_from [] i dev = none
autoboot_priority_from (a ∷ opts) i dev =
    if autoboot_option_matches a dev
    then some (priority_local_first + i)
    else autoboot_priority_from opts (suc i) dev

unfoldable pub autoboot_option_priority : Config → DiscoverBootOption → Option ℕ
autoboot_option_priority config opt = autoboot_priority_from config.autoboot_opts 0 opt.device

-- What follows the tests of the temporary option and of the IPMI setting.
unfoldable pub configured_priority : Config → DiscoverBootOption → ℕ
configured_priority config opt = elim config.autoboot_opts [
  | [] ↦ priority_local_first
  | a ∷ opts ↦ elim (autoboot_option_priority config opt) [
    | some prio ↦ if ltb 0 prio then prio else priority_disabled
    | none ↦ priority_disabled
  ]
]

unfoldable pub default_option_priority : Config → DeviceHandler → DiscoverBootOption → ℕ
default_option_priority config handler opt = elim handler.temp_autoboot [
  | some temp ↦
      if autoboot_option_matches temp opt.device then priority_temp_user else priority_disabled
  | none ↦
      if config.ipmi_bootdev == 0
      then configured_priority config opt
      else if ipmi_device_type_matches config.ipmi_bootdev opt.device.type
      then priority_remote
      else priority_disabled
]
