-- ===== src/Protocol/Config/Interface/RoundTrip.antt =====
-- What the receiver makes of one network interface.
use petitboot.Types.{
  StaticConfig, InterfaceConfig, config_method_dhcp, config_method_static, hwaddr_size,
}
use petitboot.Protocol.Config.Interface.{
  static_len, interface_config_rest_len, interface_config_len, static_bytes, interface_config_rest,
  config_interface_bytes, no_static, read_flag, read_static, read_interface_rest,
  read_config_interface,
}
use mathlib.Core.Path.{subst}
use petitboot.Base.{
  ◌^◌, ◌<◌, ◌≤◌, ◌≡◌, ◌==◌, refl, Bool, true, false, not, arith, length, length-append,
}
use petitboot.Talloc.{Talloc}
use petitboot.Protocol.Words.{
  ByteOrder, little, big, put_host32, put_be32, length-put_host32, length-put_be32,
}
use petitboot.Protocol.Fields.{IsString, received, bool_word, read_bytes}
use petitboot.Protocol.Codec.{Decodes, seq, last, pure-Decodes}
use petitboot.Protocol.Codec.Fields.{read_u32-Decodes, read_bytes-Decodes}
use petitboot.Protocol.Codec.Strings.{length-put_string, read_string-Decodes}

-- The hardware address has its six bytes, the method is a word and the strings are C strings.
pub record IsInterfaceConfig (c : InterfaceConfig) : Type 0 where
  pub hwaddr : length c.hwaddr ≡ hwaddr_size
  pub method : c.method < 2 ^ 32
  pub address : IsString c.static_config.address
  pub gateway : IsString c.static_config.gateway
  pub url : IsString c.static_config.url

unfoldable pub received_static : Bool → StaticConfig → StaticConfig
received_static true s = record {
  address = received s.address;
  gateway = received s.gateway;
  url = received s.url;
}
received_static false s = no_static

received_rest : Bool → InterfaceConfig → InterfaceConfig
unfolding received_static
received_rest true c = record {
  hwaddr = c.hwaddr;
  ignore = true;
  method = config_method_dhcp;
  static_config = no_static;
  override = false;
}
received_rest false c = record {
  hwaddr = c.hwaddr;
  ignore = false;
  method = c.method;
  static_config = received_static (c.method == config_method_static) c.static_config;
  override = c.override;
}

-- An interface as the other side gets it: of an ignored one only the address goes over the wire,
-- and of one that is not static no addresses.
unfoldable pub received_interface : InterfaceConfig → InterfaceConfig
unfolding received_rest
received_interface c = received_rest c.ignore c

pub read_flag-Decodes :
    (o : ByteOrder) (b : Bool) → Decodes read_flag (put_host32 o (bool_word b)) b
unfolding read_flag put_host32 put_be32
read_flag-Decodes little true = last (λ v. not (v == 0)) (read_u32-Decodes (2 ^ 24) (omega arith))
read_flag-Decodes little false = last (λ v. not (v == 0)) (read_u32-Decodes 0 (omega arith))
read_flag-Decodes big true = last (λ v. not (v == 0)) (read_u32-Decodes 1 (omega arith))
read_flag-Decodes big false = last (λ v. not (v == 0)) (read_u32-Decodes 0 (omega arith))

length-static_bytes : (b : Bool) (s : StaticConfig) → length (static_bytes b s) ≡ static_len b s
unfolding static_bytes static_len
length-static_bytes true s = omega (arith, length-append {0}, length-put_string)
length-static_bytes false s = refl

length-interface_config_rest :
    (o : ByteOrder) (b : Bool) (c : InterfaceConfig)
    → length (interface_config_rest o b c) ≡ interface_config_rest_len b c
unfolding interface_config_rest interface_config_rest_len
length-interface_config_rest o true c = refl
length-interface_config_rest o false c = omega (
  arith,
  length-append {0},
  length-put_be32,
  length-put_host32,
  length-static_bytes (c.method == config_method_static) c.static_config,
)

pub length-config_interface_bytes :
    (o : ByteOrder) (c : InterfaceConfig)
    → length c.hwaddr ≡ hwaddr_size
    → length (config_interface_bytes o c) ≡ interface_config_len c
unfolding config_interface_bytes interface_config_len
length-config_interface_bytes o c h =
    omega (arith, length-append {0}, length-put_host32, length-interface_config_rest o c.ignore c)

pub interface_config_len-pos : (c : InterfaceConfig) → 1 ≤ interface_config_len c
unfolding interface_config_len
interface_config_len-pos c = omega arith

module _ (t : Talloc) (o : ByteOrder) (c : InterfaceConfig) (h : IsInterfaceConfig c) where
  read_static-Decodes :
      (b : Bool)
      → Decodes
          (read_static t b)
          (static_bytes b c.static_config)
          (received_static b c.static_config)
  unfolding read_static static_bytes received_static
  read_static-Decodes true = seq _ (read_string-Decodes t c.static_config.address h.address) (
      seq _ (read_string-Decodes t c.static_config.gateway h.gateway)
        (last _ (read_string-Decodes t c.static_config.url h.url)))
  read_static-Decodes false = pure-Decodes no_static

  read_interface_rest-Decodes :
      (b : Bool)
      → Decodes (read_interface_rest t c.hwaddr b) (interface_config_rest o b c) (received_rest b c)
  unfolding read_interface_rest interface_config_rest received_rest
  read_interface_rest-Decodes true = pure-Decodes _
  read_interface_rest-Decodes false = seq _ (read_u32-Decodes c.method h.method) (
      seq _ (read_static-Decodes (c.method == config_method_static))
        (last _ (read_flag-Decodes o c.override)))

  hwaddr-Decodes : Decodes (read_bytes hwaddr_size) c.hwaddr c.hwaddr
  hwaddr-Decodes =
      subst (λ n. Decodes (read_bytes n) c.hwaddr c.hwaddr) h.hwaddr (read_bytes-Decodes c.hwaddr)

  pub read_config_interface-Decodes :
      Decodes (read_config_interface t) (config_interface_bytes o c) (received_interface c)
  unfolding read_config_interface config_interface_bytes received_interface
  read_config_interface-Decodes =
      seq _ hwaddr-Decodes
        (seq _ (read_flag-Decodes o c.ignore) (read_interface_rest-Decodes c.ignore))
