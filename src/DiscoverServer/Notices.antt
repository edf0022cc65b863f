-- ===== src/DiscoverServer/Notices.antt =====
-- discover/discover-server.c: the messages of the write_*_message functions.
use petitboot.Base.{
  zero, suc, ◌-◌, ◌∷◌, ◌++◌, length, ℕ, ◌+◌, u32, Bool, Option, none, some, [], Bytes,
}
use petitboot.Types.{Device, BootOption, PluginOption, Status, SystemInfo, Config}
use petitboot.Protocol.Words.{ByteOrder}
use petitboot.Protocol.Reader.{Message}
use petitboot.Protocol.Fields.{Written, written, overrun, invalid, put_string, optional_strlen}
use petitboot.Protocol.Transport.{create_message}
use petitboot.Protocol.Device.{device_len, serialise_device}
use petitboot.Protocol.BootOption.{boot_option_len, serialise_boot_option}
use petitboot.Protocol.PluginOption.{plugin_option_len, serialise_plugin_option}
use petitboot.Protocol.Status.{boot_status_len, serialise_boot_status}
use petitboot.Protocol.SystemInfo.{system_info_len, serialise_system_info}
use petitboot.Protocol.Config.{config_len, serialise_config}
use petitboot.Protocol.Auth.{response, authenticate_len, serialise_authenticate}

pub data Notice : Type 0 where
  device_add : Device → Notice
  boot_option_add : BootOption → Notice
  device_remove : Bytes → Notice
  boot_status : Status → Notice
  system_info : SystemInfo → Notice
  config : Config → Notice
  plugin_option_add : PluginOption → Notice
  plugins_remove : Notice
  authenticated : Bool → Notice

abbrev pub zeros : ℕ → Bytes
zeros zero = []
zeros (suc n) = 0 ∷ zeros n

-- pb_protocol_create_message, and the serialised payload. What the serialiser leaves of the fresh
-- memory is taken to be zero.
abbrev pub build : Written → ℕ → ℕ → Option Message
build (written bytes) action len = create_message (bytes ++ zeros (len - length bytes)) action len
build overrun action len = none
build invalid action len = none

unfoldable pub notice_message : ByteOrder → Notice → Option Message
notice_message o (device_add dev) =
    build (serialise_device o dev (device_len dev)) 1 (device_len dev)
notice_message o (boot_option_add opt) =
    build (serialise_boot_option opt (boot_option_len opt)) 2 (boot_option_len opt)
notice_message o (device_remove id) =
    create_message (put_string (some id)) 3 (u32 (optional_strlen (some id) + 4))
notice_message o (boot_status s) =
    build (serialise_boot_status s (boot_status_len s)) 6 (boot_status_len s)
notice_message o (system_info i) =
    build (serialise_system_info i (system_info_len i)) 8 (system_info_len i)
notice_message o (config c) = build (serialise_config o c (config_len c)) 9 (config_len c)
notice_message o (plugin_option_add p) =
    build (serialise_plugin_option p (plugin_option_len p)) 12 (plugin_option_len p)
notice_message o plugins_remove = create_message [] 13 0
notice_message o (authenticated b) =
    build (serialise_authenticate o (response b) (authenticate_len (response b))) 16
      (authenticate_len (response b))
