-- ===== src/DiscoverClient.antt =====
-- ui/common/discover-client.c: the client library's copy of the server's devices, and its requests.
-- A device of the library has its boot options, the newest first, as list_add puts them.
pub mod Mirror
pub mod Requests
pub mod Delivery
use petitboot.CString.{strcmp_equal}
use petitboot.Base.{Bool, true, false, Option, none, some, List, [], ◌∷◌, ◌++◌, ◌==◌, if◌then◌else◌}
use petitboot.Talloc.{Talloc, CStr}
use petitboot.Types.{Device, BootOption, PluginOption, Status, SystemInfo, Config}
use petitboot.Protocol.Words.{ByteOrder}
use petitboot.Protocol.Reader.{Message, Outcome, done, refused, fault}
use petitboot.Protocol.Fields.{deserialise_string}
use petitboot.Protocol.Device.{deserialise_device}
use petitboot.Protocol.BootOption.{deserialise_boot_option}
use petitboot.Protocol.PluginOption.{deserialise_plugin_option}
use petitboot.Protocol.Status.{deserialise_boot_status}
use petitboot.Protocol.SystemInfo.{deserialise_system_info}
use petitboot.Protocol.Config.{deserialise_config}
use petitboot.Protocol.Auth.{
  AuthMessage, response, request, set_password, decrypt_dev, other, deserialise_authenticate,
}

pub record ClientDevice : Type 0 where
  pub device : Device
  pub boot_options : List BootOption

-- A call of an operation that the user interface supplies.
pub data UiCall : Type 0 where
  ui_device_add : Device → UiCall
  ui_boot_option_add : Device → BootOption → UiCall
  ui_device_remove : Device → UiCall
  ui_plugin_option_add : PluginOption → UiCall
  ui_plugins_remove : UiCall
  ui_update_status : Status → UiCall
  ui_update_sysinfo : SystemInfo → UiCall
  ui_update_config : Config → UiCall

-- Which of the operations are not null pointers; device_remove is called without a test.
pub record DiscoverClientOps : Type 0 where
  pub has_device_add : Bool
  pub has_boot_option_add : Bool
  pub has_plugin_option_add : Bool
  pub has_plugins_remove : Bool
  pub has_update_status : Bool
  pub has_update_sysinfo : Bool
  pub has_update_config : Bool

-- `calls` are the calls of the operations so far, in order.
pub record DiscoverClient : Type 0 where
  pub ops : DiscoverClientOps
  pub devices : List ClientDevice
  pub authenticated : Bool
  pub calls : List UiCall

abbrev pub tell : Bool → UiCall → DiscoverClient → DiscoverClient
tell given call client =
    if given then record client { calls = client.calls ++ call ∷ [] } else client

-- `!strcmp(a, b)` of two pointers; a null pointer is equal to nothing.
abbrev pub id_equal : CStr → CStr → Bool
id_equal (some a) (some b) = strcmp_equal a b
id_equal (some a) none = false
id_equal none b = false

unfoldable pub find_device : List ClientDevice → CStr → Option ClientDevice
find_device [] id = none
find_device (dev ∷ devs) id = if id_equal dev.device.id id then some dev else find_device devs id

unfoldable pub device_add : DiscoverClient → Device → DiscoverClient
device_add client dev =
    tell client.ops.has_device_add (ui_device_add dev) (record client {
      devices = client.devices ++ record { device = dev; boot_options = [] } ∷ [];
    })

-- list_add to the options of the device that find_device finds.
unfoldable pub add_to_device : List ClientDevice → BootOption → List ClientDevice
add_to_device [] opt = []
add_to_device (dev ∷ devs) opt =
    if id_equal dev.device.id opt.device_id
    then record dev { boot_options = opt ∷ dev.boot_options } ∷ devs
    else dev ∷ add_to_device devs opt

-- `none` is the failed assertion that the device is there.
unfoldable pub boot_option_add : DiscoverClient → BootOption → Option DiscoverClient
boot_option_add client opt = elim (find_device client.devices opt.device_id) [
  | none ↦ none
  | some dev ↦ some (
      tell client.ops.has_boot_option_add (ui_boot_option_add dev.device opt)
        (record client { devices = add_to_device client.devices opt }))
]

-- The array without the first device of the id.
unfoldable pub without_device : List ClientDevice → CStr → List ClientDevice
without_device [] id = []
without_device (dev ∷ devs) id =
    if id_equal dev.device.id id then devs else dev ∷ without_device devs id

unfoldable pub device_remove : DiscoverClient → CStr → DiscoverClient
device_remove client id = elim (find_device client.devices id) [
  | none ↦ client
  | some dev ↦
      tell true (ui_device_remove dev.device)
        (record client { devices = without_device client.devices id })
]

-- The branch of the switch for a message that is deserialised: a refusal leaves the client as it
-- is, and `none` is a load outside the message.
unfoldable pub with_payload :
    {A : Type 0} → Outcome A → DiscoverClient → (A → Option DiscoverClient) → Option DiscoverClient
with_payload (done a c) client f = f a
with_payload refused client f = some client
with_payload fault client f = none

-- PB_PROTOCOL_ACTION_AUTHENTICATE: only a response counts.
abbrev pub authenticate_response : DiscoverClient → AuthMessage → DiscoverClient
authenticate_response client (response b) = record client { authenticated = b }
authenticate_response client (request p) = client
authenticate_response client (set_password p n) = client
authenticate_response client (decrypt_dev p d) = client
authenticate_response client (other k) = client

-- The id of a device to remove; a null pointer is logged.
abbrev pub remove_named : DiscoverClient → CStr → DiscoverClient
remove_named client none = client
remove_named client (some id) = device_remove client (some id)

-- The byte order, talloc, and structures as talloc_zero gives them.
pub record ClientWorld : Type 0 where
  pub order : ByteOrder
  pub talloc : Talloc
  pub zeroed_sysinfo : SystemInfo
  pub zeroed_config : Config

-- discover_client_process on a message that was read. `none` is a failed assertion, or a load outside the message.
unfoldable pub discover_client_process :
    ClientWorld → Message → DiscoverClient → Option DiscoverClient
discover_client_process w m client =
    if m.action == 1
    then with_payload (deserialise_device w.talloc w.order m) client
        (λ dev. some (device_add client dev))
    else if m.action == 2
    then with_payload (deserialise_boot_option w.talloc m) client (boot_option_add client)
    else if m.action == 3
    then with_payload (deserialise_string w.talloc m) client (λ id. some (remove_named client id))
    else if m.action == 6
    then with_payload (deserialise_boot_status w.talloc m) client
        (λ s. some (tell client.ops.has_update_status (ui_update_status s) client))
    else if m.action == 8
    then with_payload (deserialise_system_info w.talloc w.zeroed_sysinfo m) client
        (λ s. some (tell client.ops.has_update_sysinfo (ui_update_sysinfo s) client))
    else if m.action == 9
    then with_payload (deserialise_config w.talloc w.zeroed_config m) client
        (λ c. some (tell client.ops.has_update_config (ui_update_config c) client))
    else if m.action == 12
    then with_payload (deserialise_plugin_option w.talloc m) client
        (λ p. some (tell client.ops.has_plugin_option_add (ui_plugin_option_add p) client))
    else if m.action == 13
    then some (tell client.ops.has_plugins_remove ui_plugins_remove client)
    else if m.action == 16
    then with_payload (deserialise_authenticate w.talloc w.order m) client
        (λ a. some (authenticate_response client a))
    else some client

-- One message after the other.
unfoldable pub process_messages :
    ClientWorld → List Message → DiscoverClient → Option DiscoverClient
process_messages w [] client = some client
process_messages w (m ∷ ms) client = elim (discover_client_process w m client) [
  | none ↦ none
  | some client' ↦ process_messages w ms client'
]
