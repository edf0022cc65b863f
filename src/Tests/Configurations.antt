-- ===== src/Tests/Configurations.antt =====
-- Examples for the messages with nested parts.
use petitboot.Protocol.Reader.{refused}
use petitboot.Base.{
  take, drop, take-append-drop, ◌≡◌, true, false, none, some, [], ◌∷◌, arith, length,
}
use petitboot.Types.{by_type, by_uuid, InterfaceConfig, Config, SystemInfo}
use petitboot.Protocol.Words.{little, put_be32, put_host32, put_all}
use petitboot.Protocol.Fields.{put_string, put_bool, written, overrun, message_of, value}
use petitboot.Protocol.Autoboot.{temp_autoboot_len, autoboot_bytes, serialise_temp_autoboot}
use petitboot.Protocol.Autoboot.RoundTrip.{serialise_temp_autoboot-temp_autoboot_len}
use petitboot.Protocol.Config.Interface.{config_interface_bytes}
use petitboot.Protocol.Config.{config_len, config_bytes, serialise_config, deserialise_config}
use petitboot.Protocol.Config.RoundTrip.{
  received_config, deserialise_config-serialise_config, deserialise_config-truncated,
}
use petitboot.Protocol.SystemInfo.{
  system_info_len, system_info_bytes, serialise_system_info, deserialise_system_info,
}
use petitboot.Protocol.SystemInfo.Items.{received_system_info}
use petitboot.Protocol.SystemInfo.RoundTrip.{deserialise_system_info-serialise_system_info}
use petitboot.Tests.Data.{plain, text}

autoboot_overrun :
    serialise_temp_autoboot (by_uuid 1 (text "f00d")) (temp_autoboot_len (by_uuid 1 (text "f00d")))
    ≡ overrun
unfolding autoboot_bytes put_string put_be32
autoboot_overrun = serialise_temp_autoboot-temp_autoboot_len (by_uuid 1 (text "f00d")) (omega arith)

abbrev eth : InterfaceConfig
eth = record {
  hwaddr = 2 ∷ 0 ∷ 0 ∷ 0 ∷ 0 ∷ 7 ∷ [];
  ignore = false;
  method = 1;
  static_config = record { address = text "10.0.0.2/24"; gateway = text "10.0.0.1"; url = none };
  override = true;
}

abbrev pub settings : Config
settings = record {
  autoboot_enabled = true;
  autoboot_timeout_sec = 10;
  interfaces = eth ∷ [];
  dns_servers = text "10.0.0.1" ∷ [];
  preboot_check_enabled = true;
  autoboot_opts = by_type 0 ∷ by_uuid 1 (text "f00d") ∷ [];
  ipmi_bootdev = 0;
  ipmi_bootdev_persistent = false;
  ipmi_bootdev_mailbox = false;
  http_proxy = none;
  https_proxy = none;
  allow_writes = true;
  boot_console = text "/dev/hvc0";
  manual_console = false;
  lang = text "en_US.UTF-8";
  consoles = text "/dev/hvc0" ∷ [];
  disable_snapshots = false;
  safe_mode = false;
  debug = true;
}

settings_round_trip :
    (serialise_config little settings (config_len settings)
      ≡ written (config_bytes little settings))
    × (value (deserialise_config plain settings (message_of 9 (config_bytes little settings)))
        ≡ some (received_config settings settings))
unfolding config_bytes put_string put_be32 put_host32 put_all config_interface_bytes autoboot_bytes
settings_round_trip =
    deserialise_config-serialise_config plain little 9 settings settings (omega arith) (omega arith)

-- The first forty bytes.
settings_truncated :
    deserialise_config plain settings (message_of 9 (take 40 (config_bytes little settings)))
    ≡ refused
unfolding config_bytes put_string put_be32 put_host32 put_all config_interface_bytes autoboot_bytes
settings_truncated =
    deserialise_config-truncated plain little 9 settings settings
      (take 40 (config_bytes little settings)) (drop 40 (config_bytes little settings))
      (omega arith) (omega arith) (take-append-drop 40 (config_bytes little settings)) (λ e. cc)

abbrev pub machine : SystemInfo
machine = record {
  type = text "PowerNV";
  identifier = none;
  platform_primary = text "v1" ∷ [];
  platform_other = [];
  bmc_current = [];
  bmc_golden = [];
  interfaces =
      record {
        hwaddr = 2 ∷ 0 ∷ 0 ∷ 0 ∷ 0 ∷ 7 ∷ [];
        name = text "eth0";
        link = true;
        address = text "10.0.0.2";
        address_v6 = none;
      }
      ∷ [];
  blockdevs = record { name = text "sda"; uuid = text "f00d"; mountpoint = none } ∷ [];
  bmc_mac = none;
  stb_fw_measurement = true;
  stb_fw_enforcing = false;
  stb_os_enforcing = false;
}

machine_round_trip :
    (system_info_len machine ≡ length (system_info_bytes machine))
    × (serialise_system_info machine (system_info_len machine)
        ≡ written (system_info_bytes machine))
    × (value (deserialise_system_info plain machine (message_of 8 (system_info_bytes machine)))
        ≡ some (received_system_info machine machine))
unfolding system_info_bytes put_string put_be32 put_all put_bool
machine_round_trip =
    deserialise_system_info-serialise_system_info plain 8 machine machine (omega arith)
      (omega arith)
