-- ===== src/Types.antt =====
-- lib/types/types.h: the structures that server and clients share. An array with its count is a
-- list, a `char *` a `CStr`, an enum or a counter a number. Left out are the list links, the
-- `ui_info` pointers and a device's list of options, which no message carries.
use petitboot.Base.{ℕ, Bool, List, Bytes}
use petitboot.Talloc.{CStr}

pub record Device : Type 0 where
  pub id : CStr
  pub type : ℕ
  pub name : CStr
  pub description : CStr
  pub icon_file : CStr

pub record BootOption : Type 0 where
  pub device_id : CStr
  pub id : CStr
  pub name : CStr
  pub description : CStr
  pub icon_file : CStr
  pub boot_image_file : CStr
  pub initrd_file : CStr
  pub dtb_file : CStr
  pub boot_args : CStr
  pub args_sig_file : CStr
  pub is_default : Bool
  pub is_autoboot_default : Bool
  pub type : ℕ

pub record PluginOption : Type 0 where
  pub id : CStr
  pub name : CStr
  pub vendor : CStr
  pub vendor_id : CStr
  pub version : CStr
  pub date : CStr
  pub plugin_file : CStr
  pub executables : List CStr

pub record BootCommand : Type 0 where
  pub option_id : CStr
  pub boot_image_file : CStr
  pub initrd_file : CStr
  pub dtb_file : CStr
  pub boot_args : CStr
  pub args_sig_file : CStr
  pub console : CStr

abbrev pub status_info : ℕ
status_info = 0

abbrev pub status_error : ℕ
status_error = 1

pub record Status : Type 0 where
  pub type : ℕ
  pub message : CStr
  pub backlog : Bool
  pub boot_active : Bool

pub record InterfaceInfo : Type 0 where
  pub hwaddr : Bytes
  pub name : CStr
  pub link : Bool
  pub address : CStr
  pub address_v6 : CStr

pub record BlockdevInfo : Type 0 where
  pub name : CStr
  pub uuid : CStr
  pub mountpoint : CStr

pub record SystemInfo : Type 0 where
  pub type : CStr
  pub identifier : CStr
  pub platform_primary : List CStr
  pub platform_other : List CStr
  pub bmc_current : List CStr
  pub bmc_golden : List CStr
  pub interfaces : List InterfaceInfo
  pub blockdevs : List BlockdevInfo
  -- `uint8_t *bmc_mac`: six bytes, or a null pointer.
  pub bmc_mac : CStr
  pub stb_fw_measurement : Bool
  pub stb_fw_enforcing : Bool
  pub stb_os_enforcing : Bool

abbrev pub hwaddr_size : ℕ
hwaddr_size = 6

abbrev pub config_method_dhcp : ℕ
config_method_dhcp = 0

abbrev pub config_method_static : ℕ
config_method_static = 1

pub record StaticConfig : Type 0 where
  pub address : CStr
  pub gateway : CStr
  pub url : CStr

pub record InterfaceConfig : Type 0 where
  pub hwaddr : Bytes
  pub ignore : Bool
  pub method : ℕ
  pub static_config : StaticConfig
  pub override : Bool

abbrev pub boot_device_type : ℕ
boot_device_type = 0

abbrev pub boot_device_uuid : ℕ
boot_device_uuid = 1

-- `by_type t` has the `boot_type` BOOT_DEVICE_TYPE; `by_uuid b u` has the `boot_type` b, any
-- other number, and the member `uuid` of the union.
pub data AutobootOption : Type 0 where
  by_type : ℕ → AutobootOption
  by_uuid : ℕ → CStr → AutobootOption

pub record Config : Type 0 where
  pub autoboot_enabled : Bool
  pub autoboot_timeout_sec : ℕ
  pub interfaces : List InterfaceConfig
  pub dns_servers : List CStr
  pub preboot_check_enabled : Bool
  pub autoboot_opts : List AutobootOption
  pub ipmi_bootdev : ℕ
  pub ipmi_bootdev_persistent : Bool
  pub ipmi_bootdev_mailbox : Bool
  pub http_proxy : CStr
  pub https_proxy : CStr
  pub allow_writes : Bool
  pub boot_console : CStr
  pub manual_console : Bool
  pub lang : CStr
  pub consoles : List CStr
  pub disable_snapshots : Bool
  pub safe_mode : Bool
  pub debug : Bool
