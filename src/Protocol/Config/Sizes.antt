-- ===== src/Protocol/Config/Sizes.antt =====
-- The space that a configuration message takes.
use petitboot.Types.{Config, InterfaceConfig, AutobootOption}
use petitboot.Protocol.Autoboot.{autoboot_bytes}
use petitboot.Protocol.Autoboot.RoundTrip.{
  IsAutobootOption, length-autoboot_bytes, autoboot_opt_len-pos,
}
use petitboot.Protocol.Config.Interface.{config_interface_bytes}
use petitboot.Protocol.Config.Interface.RoundTrip.{
  IsInterfaceConfig, length-config_interface_bytes, interface_config_len-pos,
}
use petitboot.Protocol.Config.{interfaces_len, autoboot_opts_len, config_len, config_bytes}
use petitboot.Base.{◌+◌, ◌^◌, ◌<◌, ◌≤◌, ◌≡◌, refl, List, [], ◌∷◌, arith, length, length-append, All}
use petitboot.Protocol.Words.{ByteOrder, put_all, length-put_host32, length-put_be32}
use petitboot.Protocol.Fields.{IsString, AreStrings, optional_strlen, strings_len}
use petitboot.Protocol.Codec.Strings.{length-put_string, length-put_strings, length-le-strings_len}

-- Every part of the configuration is well formed: C strings, words, six-byte addresses.
pub record IsConfig (c : Config) : Type 0 where
  pub autoboot_timeout_sec : c.autoboot_timeout_sec < 2 ^ 32
  pub interfaces : All IsInterfaceConfig c.interfaces
  pub dns_servers : AreStrings c.dns_servers
  pub http_proxy : IsString c.http_proxy
  pub https_proxy : IsString c.https_proxy
  pub autoboot_opts : All IsAutobootOption c.autoboot_opts
  pub ipmi_bootdev : c.ipmi_bootdev < 2 ^ 32
  pub consoles : AreStrings c.consoles
  pub boot_console : IsString c.boot_console
  pub lang : IsString c.lang

length-interfaces :
    (o : ByteOrder) (cs : List InterfaceConfig)
    → All IsInterfaceConfig cs
    → length (put_all (config_interface_bytes o) cs) ≡ interfaces_len cs
unfolding put_all interfaces_len
length-interfaces o [] h = refl
length-interfaces o (c ∷ cs) h = omega (
  arith,
  length-append {0},
  length-config_interface_bytes o c h.0.hwaddr,
  length-interfaces o cs h.1,
)

length-autoboot_opts :
    (xs : List AutobootOption) → length (put_all autoboot_bytes xs) ≡ autoboot_opts_len xs
unfolding put_all autoboot_opts_len
length-autoboot_opts [] = refl
length-autoboot_opts (x ∷ xs) =
    omega (arith, length-append {0}, length-autoboot_bytes x, length-autoboot_opts xs)

count-interfaces : (cs : List InterfaceConfig) → length cs ≤ interfaces_len cs
unfolding interfaces_len
count-interfaces [] = omega arith
count-interfaces (c ∷ cs) = omega (arith, count-interfaces cs, interface_config_len-pos c)

count-autoboot_opts : (xs : List AutobootOption) → length xs ≤ autoboot_opts_len xs
unfolding autoboot_opts_len
count-autoboot_opts [] = omega arith
count-autoboot_opts (x ∷ xs) = omega (arith, count-autoboot_opts xs, autoboot_opt_len-pos x)

pub length-config_bytes :
    (o : ByteOrder) (c : Config)
    → IsConfig c
    → length (config_bytes o c) < 2 ^ 32
    → (config_len c ≡ length (config_bytes o c))
      × (length c.interfaces < 2 ^ 32)
      × (length c.dns_servers < 2 ^ 32)
      × (length c.autoboot_opts < 2 ^ 32)
      × (length c.consoles < 2 ^ 32)
unfolding config_bytes config_len
length-config_bytes o c h b =
    let i = length-interfaces o c.interfaces h.interfaces in
    let a = length-autoboot_opts c.autoboot_opts in
    let i' = count-interfaces c.interfaces in
    let a' = count-autoboot_opts c.autoboot_opts in
    let d' = length-le-strings_len c.dns_servers in
    let c' = length-le-strings_len c.consoles in
    let whole : length (config_bytes o c)
        ≡ interfaces_len c.interfaces
          + strings_len c.dns_servers
          + optional_strlen c.http_proxy
          + optional_strlen c.https_proxy
          + autoboot_opts_len c.autoboot_opts
          + strings_len c.consoles
          + optional_strlen c.boot_console
          + optional_strlen c.lang
          + 68 =
      omega (
        arith,
        length-append {0},
        length-put_be32,
        length-put_host32,
        length-put_string,
        length-put_strings,
      ) in
    (omega arith, omega arith, omega arith, omega arith, omega arith)
