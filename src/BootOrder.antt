-- ===== src/BootOrder.antt =====
-- The boot order in the platform's parameters: read_bootdev, config_populate_bootdev and
-- params_update_bootdev_values of discover/platform.c, and the names of device types of
-- lib/types/types.c.
pub mod RoundTrip
use petitboot.CString.{codes, is_prefix, split_at}
use petitboot.Talloc.{CStr}
use petitboot.Types.{AutobootOption, by_type, by_uuid, boot_device_uuid, Config}
use petitboot.ParamList.{ParamList, param_list_get_value, param_list_set_non_empty}
use petitboot.Base.{
  ℕ, zero, suc, Bool, true, false, Option, none, some, List, [], ◌∷◌, ◌++◌, ◌==◌, if◌then◌else◌,
  Bytes, length, drop,
}

abbrev pub device_type_unknown : ℕ
device_type_unknown = 6

unfoldable pub device_type_name : ℕ → Bytes
device_type_name type =
    if type == 1
    then codes "disk"
    else if type == 2
    then codes "usb"
    else if type == 3
    then codes "optical"
    else if type == 0
    then codes "network"
    else if type == 4
    then codes "any"
    else if type == 5
    then codes "encrypted"
    else codes "unknown"

unfoldable pub find_device_type : Bytes → ℕ
find_device_type str =
    if is_prefix str (codes "disk")
    then 1
    else if is_prefix str (codes "usb")
    then 2
    else if is_prefix str (codes "optical")
    then 3
    else if is_prefix str (codes "network")
    then 0
    else if is_prefix str (codes "any")
    then 4
    else if is_prefix str (codes "encrypted")
    then 5
    else device_type_unknown

-- A copy of the text, if it is not empty.
abbrev pub uuid_option : Bytes → Option AutobootOption
uuid_option [] = none
uuid_option (c ∷ uuid) = some (by_uuid boot_device_uuid (some (c ∷ uuid)))

-- The option from the text up to the delimiter. `stale` says whether the fresh memory of the
-- option has BOOT_DEVICE_UUID as its boot_type, which nothing sets for a type that is not known.
unfoldable pub bootdev_option : Bool → Bytes → Bytes → Option AutobootOption
bootdev_option stale pos text =
    if is_prefix pos (codes "uuid:")
    then uuid_option (drop 5 text)
    else if is_prefix pos (codes "mac:")
    then uuid_option (drop 4 text)
    else if find_device_type pos == device_type_unknown
    then (if stale then uuid_option text else none)
    else some (by_type (find_device_type pos))

-- The option, if the result is 0, and the text to go on with.
unfoldable pub read_bootdev : Bool → Bytes → Option AutobootOption × Bytes
read_bootdev stale pos = elim (split_at 32 pos) [
  | none ↦ (bootdev_option stale pos pos, [])
  | some (text, rest) ↦ (bootdev_option stale pos text, rest)
]

abbrev pub with_option : Option AutobootOption → List AutobootOption → List AutobootOption
with_option none opts = opts
with_option (some opt) opts = opt ∷ opts

-- The loop of config_populate_bootdev. Each round takes a byte at least, so the text's length is
-- fuel enough.
unfoldable pub read_bootdevs : ℕ → Bool → Bytes → List AutobootOption
read_bootdevs zero stale pos = []
read_bootdevs (suc fuel) stale [] = []
read_bootdevs (suc fuel) stale (c ∷ pos) =
    let (opt, rest) = read_bootdev stale (c ∷ pos) in
    with_option opt (read_bootdevs fuel stale rest)

abbrev pub new_options : Bool → CStr → List AutobootOption
new_options stale none = []
new_options stale (some val) = read_bootdevs (length val) stale val

-- The end of config_populate_bootdev, with the options that were read.
abbrev pub take_options : Config → List AutobootOption → Config
take_options config [] =
    if config.autoboot_enabled then config else record config { autoboot_opts = [] }
take_options config (opt ∷ opts) = record config { autoboot_opts = opt ∷ opts }

unfoldable pub config_populate_bootdev : Bool → Config → ParamList → Config
config_populate_bootdev stale config pl =
    take_options config (new_options stale (param_list_get_value pl (codes "petitboot,bootdevs")))

-- `%s` of a pointer, with the C library's text for a null pointer.
abbrev pub printed_text : CStr → Bytes
printed_text none = codes "(null)"
printed_text (some text) = text

-- boot_str after the switch; a boot_type of another value leaves it as it was.
unfoldable pub bootdev_text : CStr → AutobootOption → CStr
bootdev_text last (by_type type) = some (device_type_name type ++ 32 ∷ [])
bootdev_text last (by_uuid b uuid) =
    if b == boot_device_uuid then some (codes "uuid:" ++ (printed_text uuid ++ 32 ∷ [])) else last

-- The loop over the options, with boot_str of the round before.
unfoldable pub bootdev_values : CStr → List AutobootOption → Bytes
bootdev_values last [] = []
bootdev_values last (opt ∷ opts) =
    printed_text (bootdev_text last opt) ++ bootdev_values (bootdev_text last opt) opts

unfoldable pub params_update_bootdev_values : ParamList → Bytes → Config → ParamList
params_update_bootdev_values pl param_name config =
    param_list_set_non_empty pl param_name (bootdev_values none config.autoboot_opts) true
