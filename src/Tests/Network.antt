-- ===== src/Tests/Network.antt =====
-- Examples of the network interfaces of discover/platform.c.
use petitboot.CString.{codes}
use petitboot.Base.{
  ℕ, ◌+◌, ◌*◌, ◌-◌, ◌/◌, ◌%◌, ◌≡◌, refl, true, false, Option, some, none, [], ◌∷◌, ltb,
  if◌then◌else◌, inl, inr, arith,
}
use petitboot.Types.{Config, InterfaceConfig, config_method_static}
use petitboot.Url.{is_url}
use petitboot.Interfaces.{
  zeroed_interface, params_update_network_values, config_populate_network, hex_digit, hwaddr_text,
  method_text, interface_config_str, tokens, fields, parse_hwaddr, parse_method,
  config_parse_one_interface,
}
use petitboot.Interfaces.RoundTrip.{ReadsHex, IsHwaddr, six}
use petitboot.Interfaces.Saved.{config_populate_network-params_update_network_values}
use petitboot.ParamList.{param_list_get_value}
use petitboot.Tests.Data.{text}
use petitboot.Tests.Configurations.{settings}
use petitboot.Tests.Events.{nvram}

-- A digit in lower case.
abbrev hex_value : ℕ → ℕ
hex_value c = if ltb c 58 then c - 48 else c - 87

abbrev two_digits : ℕ → ℕ → Option ℕ
two_digits a b = some (16 * hex_value a + hex_value b)

hex_value-hex_digit : (n : ℕ) → hex_value (hex_digit n) ≡ n
hex_value-hex_digit n = ground arith

join : (x : ℕ) → 16 * (x / 16) + x % 16 ≡ x
join x = omega arith

two_digits-ReadsHex : ReadsHex two_digits
two_digits-ReadsHex x h =
    rw (hex_value-hex_digit (x / 16), hex_value-hex_digit (x % 16), join x) refl

abbrev eth : InterfaceConfig
eth = record {
  hwaddr = 64 ∷ 242 ∷ 233 ∷ 0 ∷ 10 ∷ 255 ∷ [];
  ignore = false;
  method = config_method_static;
  static_config = record {
    address = some (codes "10.0.0.2/24");
    gateway = none;
    url = some (codes "tftp://10.0.0.1/a");
  };
  override = true;
}

eth-text : interface_config_str eth ≡ codes "40:f2:e9:00:0a:ff,static,10.0.0.2/24,tftp://10.0.0.1/a"
unfolding interface_config_str hwaddr_text method_text
eth-text = refl

-- A gateway without a URL.
gateway_kept :
    config_parse_one_interface two_digits (codes "40:f2:e9:00:0a:ff,static,10.0.0.2/24,10.0.0.1")
    ≡ some (record eth {
      static_config = record {
        address = some (codes "10.0.0.2/24");
        gateway = some (codes "10.0.0.1");
        url = none;
      };
      override = false;
    })
unfolding config_parse_one_interface tokens fields parse_hwaddr parse_method is_url
gateway_kept = refl

abbrev networked : Config
networked = record settings {
  interfaces = record eth { override = false } ∷ record eth { ignore = true } ∷ [];
  dns_servers = text "10.0.0.1" ∷ text "10.0.0.9" ∷ [];
}

abbrev blank : Config
blank = record settings { interfaces = []; dns_servers = [] }

networked_kept :
    config_populate_network two_digits blank (
      param_list_get_value
        (params_update_network_values nvram (codes "petitboot,network") networked)
        (codes "petitboot,network"))
    ≡ record blank {
      interfaces =
          record eth { override = false }
          ∷ record (zeroed_interface eth.hwaddr) { ignore = true }
          ∷ [];
      dns_servers = text "10.0.0.1" ∷ text "10.0.0.9" ∷ [];
    }
unfolding is_url
networked_kept =
    let bytes : IsHwaddr eth.hwaddr =
      six (omega arith) (omega arith) (omega arith) (omega arith) (omega arith) (omega arith) in
    config_populate_network-params_update_network_values two_digits nvram
      (codes "petitboot,network") networked blank two_digits-ReadsHex refl
      (
        (
          bytes,
          inr (inr (refl, refl, (codes "10.0.0.2/24", refl, search, tt, search, search))),
          search,
          tt,
          search,
        ),
        ((bytes, inl refl, search, tt, search), tt),
      )
      ((search, search), ((search, search), tt))
