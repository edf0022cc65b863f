-- ===== src/Interfaces.antt =====
-- Network interfaces in the platform's parameters: interface_config_str, parse_hwaddr,
-- config_parse_one_interface and the lists of them, params_update_network_values and
-- config_populate_network of discover/platform.c.
pub mod Tokens
pub mod RoundTrip
pub mod Network
pub mod Saved
use petitboot.Base.Options.{◌>>=◌}
use petitboot.CString.{codes, strcmp_equal, is_prefix_ignorecase}
use petitboot.Talloc.{CStr}
use petitboot.ParamList.{ParamList, param_list_set_non_empty}
use petitboot.Types.{Config, InterfaceConfig, config_method_dhcp, config_method_static}
use petitboot.Url.{is_url}
use petitboot.Base.{
  map, drop, ℕ, ◌+◌, ◌/◌, ◌%◌, Bool, true, false, Option, none, some, List, [], ◌∷◌, ◌++◌, ◌==◌,
  ltb, if◌then◌else◌, Bytes,
}

-- `%02x` of a byte.
abbrev pub hex_digit : ℕ → ℕ
hex_digit n = if ltb n 10 then 48 + n else 87 + n

abbrev pub hex_byte : ℕ → Bytes
hex_byte x = hex_digit (x / 16) ∷ hex_digit (x % 16) ∷ []

-- Bytes with colons between them.
unfoldable pub hwaddr_text : Bytes → Bytes
hwaddr_text [] = []
hwaddr_text (x ∷ []) = hex_byte x
hwaddr_text (x ∷ y ∷ xs) = hex_byte x ++ 58 ∷ hwaddr_text (y ∷ xs)

-- A text behind a comma; nothing for a null pointer.
abbrev pub comma_text : CStr → Bytes
comma_text none = []
comma_text (some text) = 44 ∷ text

-- `%s` of a pointer, with the C library's text for a null pointer.
abbrev pub address_text : CStr → Bytes
address_text none = codes "(null)"
address_text (some text) = text

unfoldable pub method_text : InterfaceConfig → Bytes
method_text config =
    if config.ignore
    then codes "ignore"
    else if config.method == config_method_dhcp
    then codes "dhcp"
    else if config.method == config_method_static
    then codes "static,"
      ++ (address_text config.static_config.address
          ++ (comma_text config.static_config.gateway ++ comma_text config.static_config.url))
    else []

unfoldable pub interface_config_str : InterfaceConfig → Bytes
interface_config_str config = hwaddr_text config.hwaddr ++ 44 ∷ method_text config

-- A field that strtok_r hands out: it passes over empty ones.
abbrev pub cons_token : Bytes → List Bytes → List Bytes
cons_token [] tokens = tokens
cons_token (c ∷ field) tokens = (c ∷ field) ∷ tokens

-- A byte in front of the first field and the later tokens.
abbrev pub put_byte : ℕ → ℕ → Bytes × List Bytes → Bytes × List Bytes
put_byte delim c r = if c == delim then ([], cons_token r.0 r.1) else (c ∷ r.0, r.1)

unfoldable pub fields : ℕ → Bytes → Bytes × List Bytes
fields delim [] = ([], [])
fields delim (c ∷ s) = put_byte delim c (fields delim s)

-- What the calls of strtok_r on the string return, in order.
unfoldable pub tokens : ℕ → Bytes → List Bytes
tokens delim s = cons_token (fields delim s).0 (fields delim s).1

-- `strtoul a b` is what strtoul makes of these two digits in base 16, if it takes both.
unfoldable pub parse_hwaddr : (ℕ → ℕ → Option ℕ) → Bytes → Option Bytes
parse_hwaddr strtoul (a ∷ b ∷ _ ∷ c ∷ d ∷ _ ∷ e ∷ f ∷ _ ∷ g ∷ h ∷ _ ∷ i ∷ j ∷ _ ∷ k ∷ l ∷ []) = do
  u ← strtoul a b
  v ← strtoul c d
  w ← strtoul e f
  x ← strtoul g h
  y ← strtoul i j
  z ← strtoul k l
  some (u % 256 ∷ v % 256 ∷ w % 256 ∷ x % 256 ∷ y % 256 ∷ z % 256 ∷ [])
parse_hwaddr strtoul _ = none

-- The structure as talloc_zero gives it, with the address.
abbrev pub zeroed_interface : Bytes → InterfaceConfig
zeroed_interface hwaddr = record {
  hwaddr = hwaddr;
  ignore = false;
  method = config_method_dhcp;
  static_config = record { address = none; gateway = none; url = none };
  override = false;
}

abbrev pub with_static : Bytes → Bytes → CStr → CStr → InterfaceConfig
with_static hwaddr address gateway url = record (zeroed_interface hwaddr) {
  method = config_method_static;
  static_config = record { address = some address; gateway = gateway; url = url };
}

-- The tokens behind "static".
abbrev pub parse_static : Bytes → List Bytes → Option InterfaceConfig
parse_static hwaddr [] = none
parse_static hwaddr (address ∷ []) = some (with_static hwaddr address none none)
parse_static hwaddr (address ∷ gw ∷ []) =
    if is_url gw
    then some (with_static hwaddr address none (some gw))
    else some (with_static hwaddr address (some gw) none)
parse_static hwaddr (address ∷ gw ∷ url ∷ rest) =
    some (with_static hwaddr address (some gw) (some url))

-- The tokens behind the address.
unfoldable pub parse_method : Bytes → List Bytes → Option InterfaceConfig
parse_method hwaddr [] = some (record (zeroed_interface hwaddr) { ignore = true })
parse_method hwaddr (tok ∷ rest) =
    if strcmp_equal tok (codes "ignore")
    then some (record (zeroed_interface hwaddr) { ignore = true })
    else if strcmp_equal tok (codes "dhcp")
    then some (zeroed_interface hwaddr)
    else if strcmp_equal tok (codes "static")
    then parse_static hwaddr rest
    else none

abbrev pub parse_tokens : (ℕ → ℕ → Option ℕ) → List Bytes → Option InterfaceConfig
parse_tokens strtoul [] = none
parse_tokens strtoul (mac ∷ rest) = do hwaddr ← parse_hwaddr strtoul mac; parse_method hwaddr rest

-- The interface that config_parse_one_interface adds to the configuration, if it adds one.
unfoldable pub config_parse_one_interface : (ℕ → ℕ → Option ℕ) → Bytes → Option InterfaceConfig
config_parse_one_interface strtoul confstr = parse_tokens strtoul (tokens 44 confstr)

abbrev pub append_word : Bytes → Bytes → Bytes
append_word [] text = text
append_word (c ∷ val) text = c ∷ val ++ 32 ∷ text

-- The loop over the interfaces, from the text of the rounds before.
unfoldable pub interfaces_text : Bytes → List InterfaceConfig → Bytes
interfaces_text val [] = val
interfaces_text val (config ∷ configs) =
    interfaces_text (append_word val (interface_config_str config)) configs

unfoldable pub servers_text : List CStr → Bytes
servers_text [] = []
servers_text (server ∷ []) = address_text server
servers_text (server ∷ next ∷ servers) = address_text server ++ 44 ∷ servers_text (next ∷ servers)

unfoldable pub dns_config_str : List CStr → Bytes
dns_config_str dns_servers = codes "dns," ++ servers_text dns_servers

-- The text with the name servers behind it.
abbrev pub with_servers : Bytes → List CStr → Bytes
with_servers val [] = val
with_servers val (server ∷ servers) = append_word val (dns_config_str (server ∷ servers))

abbrev pub network_text : Config → Bytes
network_text config = with_servers (interfaces_text [] config.interfaces) config.dns_servers

abbrev pub first_overrides : List InterfaceConfig → Bool
first_overrides [] = false
first_overrides (config ∷ configs) = config.override

unfoldable pub params_update_network_values : ParamList → Bytes → Config → ParamList
params_update_network_values pl param_name config =
    if first_overrides config.interfaces
    then pl
    else param_list_set_non_empty pl param_name (network_text config) true

abbrev pub config_parse_one_dns : Config → Bytes → Config
config_parse_one_dns config confstr = record config {
  dns_servers = config.dns_servers ++ map some (tokens 44 confstr);
}

abbrev pub add_interface : Config → Option InterfaceConfig → Config
add_interface config none = config
add_interface config (some interface) = record config {
  interfaces = config.interfaces ++ interface ∷ [];
}

-- A round of the loop of config_populate_network.
abbrev pub take_token : (ℕ → ℕ → Option ℕ) → Config → Bytes → Config
take_token strtoul config tok =
    if is_prefix_ignorecase tok (codes "dns,")
    then config_parse_one_dns config (drop 4 tok)
    else add_interface config (config_parse_one_interface strtoul tok)

unfoldable pub take_tokens : (ℕ → ℕ → Option ℕ) → Config → List Bytes → Config
take_tokens strtoul config [] = config
take_tokens strtoul config (tok ∷ toks) = take_tokens strtoul (take_token strtoul config tok) toks

unfoldable pub config_populate_network : (ℕ → ℕ → Option ℕ) → Config → CStr → Config
config_populate_network strtoul config none = config
config_populate_network strtoul config (some cval) = take_tokens strtoul config (tokens 32 cval)
