-- ===== src/Protocol/Config.antt =====
-- Configuration messages: lib/pb-protocol/pb-protocol.c, `pb_protocol_config_len`,
-- `pb_protocol_serialise_config` and `pb_protocol_deserialise_config`. `Interface` has the part for
-- one network interface.
pub mod Interface
pub mod Sizes
pub mod RoundTrip
use petitboot.Types.{Config, InterfaceConfig, AutobootOption}
use petitboot.Protocol.Autoboot.{autoboot_bytes, autoboot_opt_len, read_autoboot_opt}
use petitboot.Protocol.Config.Interface.{
  interface_config_len, config_interface_bytes, read_config_interface, read_flag,
}
use petitboot.Base.{ℕ, ◌+◌, ◌++◌, u32, List, [], ◌∷◌, Bytes, length}
use petitboot.Talloc.{Talloc}
use petitboot.Protocol.Words.{ByteOrder, put_host32, put_be32, put_all}
use petitboot.Protocol.Reader.{
  Reader, Outcome, ◌>>=◌, pure, read_string, read_u32, read_n, Message, start,
}
use petitboot.Protocol.Fields.{optional_strlen, strings_len, put_string, bool_word, Written, finish}

-- The loop over the interfaces.
unfoldable pub interfaces_len : List InterfaceConfig → ℕ
interfaces_len [] = 0
interfaces_len (c ∷ cs) = interface_config_len c + interfaces_len cs

-- The loop over the autoboot options.
unfoldable pub autoboot_opts_len : List AutobootOption → ℕ
autoboot_opts_len [] = 0
autoboot_opts_len (a ∷ as') = autoboot_opt_len a + autoboot_opts_len as'

unfoldable pub config_len : Config → ℕ
unfolding interfaces_len autoboot_opts_len
config_len c = u32 (
    4
    + 4
    + 4
    + 4
    + interfaces_len c.interfaces
    + 4
    + strings_len c.dns_servers
    + (4 + optional_strlen c.http_proxy)
    + (4 + optional_strlen c.https_proxy)
    + 4
    + autoboot_opts_len c.autoboot_opts
    + (4 + 4)
    + 4
    + 4
    + 4
    + strings_len c.consoles
    + (4 + optional_strlen c.boot_console)
    + 4
    + (4 + optional_strlen c.lang)
    + 4)

-- From `ipmi_bootdev` to the end.
unfoldable pub config_tail : ByteOrder → Config → Bytes
config_tail o c =
    put_be32 c.ipmi_bootdev
    ++ (put_host32 o (bool_word c.ipmi_bootdev_persistent)
        ++ (put_host32 o (bool_word c.ipmi_bootdev_mailbox)
            ++ (put_host32 o (bool_word c.allow_writes)
                ++ (put_be32 (length c.consoles)
                    ++ (put_all put_string c.consoles
                        ++ (put_string c.boot_console
                            ++ (put_host32 o (bool_word c.manual_console)
                                ++ (put_string c.lang
                                    ++ put_host32 o (bool_word c.preboot_check_enabled)))))))))

unfoldable pub config_bytes : ByteOrder → Config → Bytes
unfolding config_tail
config_bytes o c =
    put_host32 o (bool_word c.autoboot_enabled)
    ++ (put_be32 c.autoboot_timeout_sec
        ++ (put_host32 o (bool_word c.safe_mode)
            ++ (put_be32 (length c.interfaces)
                ++ (put_all (config_interface_bytes o) c.interfaces
                    ++ (put_be32 (length c.dns_servers)
                        ++ (put_all put_string c.dns_servers
                            ++ (put_string c.http_proxy
                                ++ (put_string c.https_proxy
                                    ++ (put_be32 (length c.autoboot_opts)
                                        ++ (put_all autoboot_bytes c.autoboot_opts
                                            ++ config_tail o c))))))))))

unfoldable pub serialise_config : ByteOrder → Config → ℕ → Written
serialise_config o c buf_len = finish (config_bytes o c) buf_len

-- The fields that follow the autoboot options, stored into `c`.
unfoldable pub read_config_tail : Talloc → Config → Reader Config
read_config_tail t c = do
  ipmi_bootdev ← read_u32
  ipmi_bootdev_persistent ← read_flag
  ipmi_bootdev_mailbox ← read_flag
  allow_writes ← read_flag
  n_consoles ← read_u32
  consoles ← read_n n_consoles (read_string t)
  boot_console ← read_string t
  manual_console ← read_flag
  lang ← read_string t
  preboot_check_enabled ← read_flag
  pure (record c {
    ipmi_bootdev = ipmi_bootdev;
    ipmi_bootdev_persistent = ipmi_bootdev_persistent;
    ipmi_bootdev_mailbox = ipmi_bootdev_mailbox;
    allow_writes = allow_writes;
    consoles = consoles;
    boot_console = boot_console;
    manual_console = manual_console;
    lang = lang;
    preboot_check_enabled = preboot_check_enabled;
  })

-- `c` is the configuration that the caller hands over to be filled.
unfoldable pub read_config : Talloc → Config → Reader Config
unfolding read_config_tail
read_config t c = do
  autoboot_enabled ← read_flag
  autoboot_timeout_sec ← read_u32
  safe_mode ← read_flag
  n_interfaces ← read_u32
  interfaces ← read_n n_interfaces (read_config_interface t)
  n_dns_servers ← read_u32
  dns_servers ← read_n n_dns_servers (read_string t)
  http_proxy ← read_string t
  https_proxy ← read_string t
  n_autoboot_opts ← read_u32
  autoboot_opts ← read_n n_autoboot_opts (read_autoboot_opt t)
  read_config_tail t (record c {
    autoboot_enabled = autoboot_enabled;
    autoboot_timeout_sec = autoboot_timeout_sec;
    safe_mode = safe_mode;
    interfaces = interfaces;
    dns_servers = dns_servers;
    http_proxy = http_proxy;
    https_proxy = https_proxy;
    autoboot_opts = autoboot_opts;
  })

unfoldable pub deserialise_config : Talloc → Config → Message → Outcome Config
deserialise_config t c m = read_config t c (start m)
