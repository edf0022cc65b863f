-- ===== src/Protocol/Config/RoundTrip.antt =====
-- What the receiver makes of a configuration message.
use petitboot.Types.{Config}
use petitboot.Protocol.Autoboot.{autoboot_bytes, read_autoboot_opt}
use petitboot.Protocol.Autoboot.RoundTrip.{received_autoboot, read_autoboot_opt-Decodes}
use petitboot.Protocol.Config.Interface.{config_interface_bytes, read_config_interface}
use petitboot.Protocol.Config.Interface.RoundTrip.{
  received_interface, read_flag-Decodes, read_config_interface-Decodes,
}
use petitboot.Protocol.Config.{
  config_len, config_tail, config_bytes, serialise_config, read_config_tail, read_config,
  deserialise_config,
}
use petitboot.Base.{ℕ, ◌^◌, ◌<◌, ◌≡◌, ◌≢◌, some, [], ◌++◌, map, arith, Bytes, length, All-weaken}
use petitboot.Talloc.{Talloc}
use petitboot.Protocol.Words.{ByteOrder, put_all}
use petitboot.Protocol.Reader.{refused, read_n}
use petitboot.Protocol.Fields.{received, written, message_of, value}
use petitboot.Protocol.Codec.{Decodes, seq, last, read_n-Decodes}
use petitboot.Protocol.Codec.Fields.{read_u32-Decodes}
use petitboot.Protocol.Codec.Strings.{read_string-Decodes, read_strings-Decodes}
use petitboot.Protocol.Codec.Messages.{finish-written, Decodes-message, Decodes-truncated}
use petitboot.Protocol.Config.Sizes.{IsConfig, length-config_bytes}

-- The configuration `old` with all of `c` but the two fields that no message carries.
unfoldable pub received_config : Config → Config → Config
received_config old c = record c {
  interfaces = map received_interface c.interfaces;
  dns_servers = map received c.dns_servers;
  autoboot_opts = map received_autoboot c.autoboot_opts;
  http_proxy = received c.http_proxy;
  https_proxy = received c.https_proxy;
  boot_console = received c.boot_console;
  lang = received c.lang;
  consoles = map received c.consoles;
  disable_snapshots = old.disable_snapshots;
  debug = old.debug;
}

-- What is stored when the fields up to the autoboot options are read.
config_head : Config → Config → Config
config_head old c = record old {
  autoboot_enabled = c.autoboot_enabled;
  autoboot_timeout_sec = c.autoboot_timeout_sec;
  safe_mode = c.safe_mode;
  interfaces = map received_interface c.interfaces;
  dns_servers = map received c.dns_servers;
  http_proxy = received c.http_proxy;
  https_proxy = received c.https_proxy;
  autoboot_opts = map received_autoboot c.autoboot_opts;
}

module _ (t : Talloc) (o : ByteOrder) (c : Config) (h : IsConfig c) where
  read_config_tail-Decodes :
      (d : Config)
      → length c.consoles < 2 ^ 32
      → Decodes (read_config_tail t d) (config_tail o c) (record d {
        ipmi_bootdev = c.ipmi_bootdev;
        ipmi_bootdev_persistent = c.ipmi_bootdev_persistent;
        ipmi_bootdev_mailbox = c.ipmi_bootdev_mailbox;
        allow_writes = c.allow_writes;
        consoles = map received c.consoles;
        boot_console = received c.boot_console;
        manual_console = c.manual_console;
        lang = received c.lang;
        preboot_check_enabled = c.preboot_check_enabled;
      })
  unfolding read_config_tail config_tail
  read_config_tail-Decodes d n = seq _ (read_u32-Decodes c.ipmi_bootdev h.ipmi_bootdev) (
      seq _ (read_flag-Decodes o c.ipmi_bootdev_persistent) (
        seq _ (read_flag-Decodes o c.ipmi_bootdev_mailbox) (
          seq _ (read_flag-Decodes o c.allow_writes) (
            seq _ (read_u32-Decodes (length c.consoles) n) (
              seq _ (read_strings-Decodes t c.consoles h.consoles) (
                seq _ (read_string-Decodes t c.boot_console h.boot_console) (
                  seq _ (read_flag-Decodes o c.manual_console) (
                    seq _ (read_string-Decodes t c.lang h.lang)
                      (last _ (read_flag-Decodes o c.preboot_check_enabled))))))))))

  read_interfaces-Decodes :
      Decodes
        (read_n (length c.interfaces) (read_config_interface t))
        (put_all (config_interface_bytes o) c.interfaces)
        (map received_interface c.interfaces)
  read_interfaces-Decodes =
      read_n-Decodes (read_config_interface t) (config_interface_bytes o) received_interface
        c.interfaces
        (All-weaken (λ x v. read_config_interface-Decodes t o x v) c.interfaces h.interfaces)

  read_autoboot_opts-Decodes :
      Decodes
        (read_n (length c.autoboot_opts) (read_autoboot_opt t))
        (put_all autoboot_bytes c.autoboot_opts)
        (map received_autoboot c.autoboot_opts)
  read_autoboot_opts-Decodes =
      read_n-Decodes (read_autoboot_opt t) autoboot_bytes received_autoboot c.autoboot_opts
        (All-weaken (λ x v. read_autoboot_opt-Decodes t x v) c.autoboot_opts h.autoboot_opts)

  read_config-Decodes :
      (old : Config)
      → length (config_bytes o c) < 2 ^ 32
      → Decodes (read_config t old) (config_bytes o c) (received_config old c)
  unfolding read_config config_bytes received_config config_head
  read_config-Decodes old b =
      let (_, i, d, a, n) = length-config_bytes o c h b in
      seq _ (read_flag-Decodes o c.autoboot_enabled) (
        seq _ (read_u32-Decodes c.autoboot_timeout_sec h.autoboot_timeout_sec) (
          seq _ (read_flag-Decodes o c.safe_mode) (
            seq _ (read_u32-Decodes (length c.interfaces) i) (
              seq _ read_interfaces-Decodes (
                seq _ (read_u32-Decodes (length c.dns_servers) d) (
                  seq _ (read_strings-Decodes t c.dns_servers h.dns_servers) (
                    seq _ (read_string-Decodes t c.http_proxy h.http_proxy) (
                      seq _ (read_string-Decodes t c.https_proxy h.https_proxy) (
                        seq _ (read_u32-Decodes (length c.autoboot_opts) a) (
                          seq _ read_autoboot_opts-Decodes
                            (read_config_tail-Decodes (config_head old c) n)))))))))))

-- A configuration that is written into a buffer of `pb_protocol_config_len` bytes fits, and a
-- receiver reads from it the same configuration: each empty string is read as a null pointer, of an
-- ignored interface only the address arrives, and the two fields that no message carries keep the
-- receiver's values. The byte order of the writer does not matter. The configuration is well formed
-- and the message is shorter than 2 ^ 31 bytes.
pub deserialise_config-serialise_config :
    (t : Talloc) (o : ByteOrder) (action : ℕ) (old c : Config)
    → IsConfig c
    → length (config_bytes o c) < 2 ^ 31
    → (serialise_config o c (config_len c) ≡ written (config_bytes o c))
      × (value (deserialise_config t old (message_of action (config_bytes o c)))
          ≡ some (received_config old c))
unfolding serialise_config deserialise_config
deserialise_config-serialise_config t o action old c h b = (
  finish-written _ _ (omega (arith, (length-config_bytes o c h (omega arith)).0))
      (omega (arith, (length-config_bytes o c h (omega arith)).0)),
  Decodes-message _ action (read_config-Decodes t o c h old (omega arith)) (omega arith),
)

-- A configuration message that is cut short anywhere is refused. The configuration is well formed
-- and the whole message is shorter than 2 ^ 32 bytes.
pub deserialise_config-truncated :
    (t : Talloc) (o : ByteOrder) (action : ℕ) (old c : Config) (p q : Bytes)
    → IsConfig c
    → length (config_bytes o c) < 2 ^ 32
    → p ++ q ≡ config_bytes o c
    → q ≢ []
    → deserialise_config t old (message_of action p) ≡ refused
unfolding deserialise_config
deserialise_config-truncated t o action old c p q h b e ne =
    Decodes-truncated _ action p q (read_config-Decodes t o c h old b) e ne b
