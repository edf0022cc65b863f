-- ===== src/Protocol/Config/Interface.antt =====
-- One network interface of a configuration message: lib/pb-protocol/pb-protocol.c,
-- `pb_protocol_interface_config_len`, `pb_protocol_serialise_config_interface` and
-- `pb_protocol_deserialise_config_interface`.
pub mod RoundTrip
use petitboot.Types.{
  StaticConfig, InterfaceConfig, config_method_dhcp, config_method_static, hwaddr_size,
}
use petitboot.Base.{ℕ, ◌+◌, ◌++◌, ◌==◌, Bool, true, false, not, [], none, Bytes}
use petitboot.Talloc.{Talloc}
use petitboot.Protocol.Words.{ByteOrder, put_host32, put_be32}
use petitboot.Protocol.Reader.{Reader, ◌>>=◌, pure, read_string, read_u32}
use petitboot.Protocol.Fields.{optional_strlen, put_string, bool_word, read_bytes}

unfoldable pub static_len : Bool → StaticConfig → ℕ
static_len true s =
    4 + optional_strlen s.address + (4 + optional_strlen s.gateway) + (4 + optional_strlen s.url)
static_len false s = 0

-- What stands behind `ignore` when it is false.
unfoldable pub interface_config_rest_len : Bool → InterfaceConfig → ℕ
unfolding static_len
interface_config_rest_len true c = 0
interface_config_rest_len false c =
    4 + static_len (c.method == config_method_static) c.static_config + 4

unfoldable pub interface_config_len : InterfaceConfig → ℕ
unfolding interface_config_rest_len
interface_config_len c = hwaddr_size + 4 + interface_config_rest_len c.ignore c

unfoldable pub static_bytes : Bool → StaticConfig → Bytes
static_bytes true s = put_string s.address ++ (put_string s.gateway ++ put_string s.url)
static_bytes false s = []

unfoldable pub interface_config_rest : ByteOrder → Bool → InterfaceConfig → Bytes
unfolding static_bytes
interface_config_rest o true c = []
interface_config_rest o false c =
    put_be32 c.method
    ++ (static_bytes (c.method == config_method_static) c.static_config
        ++ put_host32 o (bool_word c.override))

unfoldable pub config_interface_bytes : ByteOrder → InterfaceConfig → Bytes
unfolding interface_config_rest
config_interface_bytes o c =
    c.hwaddr ++ (put_host32 o (bool_word c.ignore) ++ interface_config_rest o c.ignore c)

-- The union of an interface that `talloc_zero` has made.
abbrev pub no_static : StaticConfig
no_static = record { address = none; gateway = none; url = none }

-- `read_u32(..., &tmp)`, and `!!tmp`.
unfoldable pub read_flag : Reader Bool
read_flag = do tmp ← read_u32; pure (not (tmp == 0))

unfoldable pub read_static : Talloc → Bool → Reader StaticConfig
read_static t true = do
  address ← read_string t
  gateway ← read_string t
  url ← read_string t
  pure (record { address = address; gateway = gateway; url = url })
read_static t false = pure no_static

unfoldable pub read_interface_rest : Talloc → Bytes → Bool → Reader InterfaceConfig
unfolding read_static read_flag
read_interface_rest t hwaddr true = pure (record {
  hwaddr = hwaddr;
  ignore = true;
  method = config_method_dhcp;
  static_config = no_static;
  override = false;
})
read_interface_rest t hwaddr false = do
  method ← read_u32
  static_config ← read_static t (method == config_method_static)
  override ← read_flag
  pure (record {
    hwaddr = hwaddr;
    ignore = false;
    method = method;
    static_config = static_config;
    override = override;
  })

unfoldable pub read_config_interface : Talloc → Reader InterfaceConfig
unfolding read_interface_rest read_flag
read_config_interface t = do
  hwaddr ← read_bytes hwaddr_size
  ignore ← read_flag
  read_interface_rest t hwaddr ignore
