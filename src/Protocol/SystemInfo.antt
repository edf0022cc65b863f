-- ===== src/Protocol/SystemInfo.antt =====
-- System information messages: lib/pb-protocol/pb-protocol.c, `pb_protocol_system_info_len`,
-- `pb_protocol_serialise_system_info` and `pb_protocol_deserialise_system_info`.
pub mod Sizes
pub mod Items
pub mod RoundTrip
use petitboot.Types.{InterfaceInfo, BlockdevInfo, SystemInfo, hwaddr_size}
use petitboot.Base.{
  ℕ, ◌+◌, ◌*◌, ◌++◌, ◌==◌, ◌||◌, if◌then◌else◌, u32, Bool, false, not, List, [], ◌∷◌, none, some,
  Bytes, length,
}
use petitboot.Talloc.{Talloc, CStr}
use petitboot.Protocol.Words.{put_be32, put_all}
use petitboot.Protocol.Reader.{
  Reader, Outcome, ◌>>=◌, pure, read_string, read_u32, read_n, load_bool, load_bytes, lower_len,
  Message, start,
}
use petitboot.Protocol.Fields.{
  optional_strlen, strings_len, put_string, put_bool, Written, finish, read_bytes, read_strdup,
}

-- The two last loops of `pb_protocol_system_info_len`.
unfoldable pub interface_infos_len : List InterfaceInfo → ℕ
interface_infos_len [] = 0
interface_infos_len (i ∷ is) =
    4
    + length i.hwaddr
    + (4 + optional_strlen i.name)
    + 1
    + (4 + optional_strlen i.address)
    + (4 + optional_strlen i.address_v6)
    + interface_infos_len is

unfoldable pub blockdev_infos_len : List BlockdevInfo → ℕ
blockdev_infos_len [] = 0
blockdev_infos_len (b ∷ bs) =
    4
    + optional_strlen b.name
    + (4 + optional_strlen b.uuid)
    + (4 + optional_strlen b.mountpoint)
    + blockdev_infos_len bs

unfoldable pub system_info_len : SystemInfo → ℕ
unfolding interface_infos_len blockdev_infos_len
system_info_len s = u32 (
    4
    + optional_strlen s.type
    + (4 + optional_strlen s.identifier)
    + (4 + 4)
    + 4
    + strings_len s.platform_primary
    + 4
    + strings_len s.platform_other
    + 4
    + strings_len s.bmc_current
    + 4
    + strings_len s.bmc_golden
    + hwaddr_size
    + interface_infos_len s.interfaces
    + blockdev_infos_len s.blockdevs
    + 3 * 1)

unfoldable pub interface_info_bytes : InterfaceInfo → Bytes
interface_info_bytes i =
    put_be32 (length i.hwaddr)
    ++ (i.hwaddr
        ++ (put_string i.name
            ++ (put_bool i.link ++ (put_string i.address ++ put_string i.address_v6))))

unfoldable pub blockdev_info_bytes : BlockdevInfo → Bytes
blockdev_info_bytes b = put_string b.name ++ (put_string b.uuid ++ put_string b.mountpoint)

-- Six bytes of address, or `memset(pos, 0, HWADDR_SIZE)`.
unfoldable pub mac_bytes : CStr → Bytes
mac_bytes (some mac) = mac
mac_bytes none = 0 ∷ 0 ∷ 0 ∷ 0 ∷ 0 ∷ 0 ∷ []

unfoldable pub stb_bytes : SystemInfo → Bytes
stb_bytes s =
    put_bool s.stb_fw_measurement ++ (put_bool s.stb_fw_enforcing ++ put_bool s.stb_os_enforcing)

-- From the interfaces to the end.
unfoldable pub system_info_tail : SystemInfo → Bytes
unfolding interface_info_bytes blockdev_info_bytes mac_bytes stb_bytes
system_info_tail s =
    put_be32 (length s.interfaces)
    ++ (put_all interface_info_bytes s.interfaces
        ++ (put_be32 (length s.blockdevs)
            ++ (put_all blockdev_info_bytes s.blockdevs ++ (mac_bytes s.bmc_mac ++ stb_bytes s))))

unfoldable pub system_info_bytes : SystemInfo → Bytes
unfolding system_info_tail
system_info_bytes s =
    put_string s.type
    ++ (put_string s.identifier
        ++ (put_be32 (length s.platform_primary)
            ++ (put_all put_string s.platform_primary
                ++ (put_be32 (length s.platform_other)
                    ++ (put_all put_string s.platform_other
                        ++ (put_be32 (length s.bmc_current)
                            ++ (put_all put_string s.bmc_current
                                ++ (put_be32 (length s.bmc_golden)
                                    ++ (put_all put_string s.bmc_golden
                                        ++ system_info_tail s)))))))))

unfoldable pub serialise_system_info : SystemInfo → ℕ → Written
serialise_system_info s buf_len = finish (system_info_bytes s) buf_len

-- The load of `link` moves `pos` and leaves `len` as it is.
unfoldable pub read_interface_info : Talloc → Reader InterfaceInfo
read_interface_info t = do
  size ← read_u32
  hwaddr ← read_bytes size
  name ← read_string t
  link ← load_bool
  address ← read_string t
  address_v6 ← read_string t
  pure (record {
    hwaddr = hwaddr;
    name = name;
    link = link;
    address = address;
    address_v6 = address_v6;
  })

unfoldable pub read_blockdev_info : Talloc → Reader BlockdevInfo
read_blockdev_info t = do
  name ← read_string t
  uuid ← read_string t
  mountpoint ← read_string t
  pure (record { name = name; uuid = uuid; mountpoint = mountpoint })

-- `for (i = 0; i < HWADDR_SIZE; i++) if (pos[i] != 0)`
unfoldable pub any_nonzero : Bytes → Bool
any_nonzero [] = false
any_nonzero (b ∷ bs) = not (b == 0) || any_nonzero bs

-- The address is stored when one of its bytes is not 0; `old` is what the field held before.
unfoldable pub read_mac : CStr → Reader CStr
unfolding any_nonzero
read_mac old = do
  mac ← load_bytes hwaddr_size
  _ ← lower_len hwaddr_size
  pure (if any_nonzero mac then some mac else old)

-- The fields from the interfaces on, stored into `s`.
unfoldable pub read_system_info_tail : Talloc → SystemInfo → Reader SystemInfo
unfolding read_interface_info read_blockdev_info read_mac
read_system_info_tail t s = do
  n_interfaces ← read_u32
  interfaces ← read_n n_interfaces (read_interface_info t)
  n_blockdevs ← read_u32
  blockdevs ← read_n n_blockdevs (read_blockdev_info t)
  bmc_mac ← read_mac s.bmc_mac
  stb_fw_measurement ← load_bool
  stb_fw_enforcing ← load_bool
  stb_os_enforcing ← load_bool
  _ ← lower_len (3 * 1)
  pure (record s {
    interfaces = interfaces;
    blockdevs = blockdevs;
    bmc_mac = bmc_mac;
    stb_fw_measurement = stb_fw_measurement;
    stb_fw_enforcing = stb_fw_enforcing;
    stb_os_enforcing = stb_os_enforcing;
  })

-- `s` is the structure that the caller hands over to be filled.
unfoldable pub read_system_info : Talloc → SystemInfo → Reader SystemInfo
unfolding read_system_info_tail
read_system_info t s = do
  type ← read_string t
  identifier ← read_string t
  n_primary ← read_u32
  platform_primary ← read_n n_primary (read_strdup t)
  n_other ← read_u32
  platform_other ← read_n n_other (read_strdup t)
  n_bmc_current ← read_u32
  bmc_current ← read_n n_bmc_current (read_strdup t)
  n_bmc_golden ← read_u32
  bmc_golden ← read_n n_bmc_golden (read_strdup t)
  read_system_info_tail t (record s {
    type = type;
    identifier = identifier;
    platform_primary = platform_primary;
    platform_other = platform_other;
    bmc_current = bmc_current;
    bmc_golden = bmc_golden;
  })

unfoldable pub deserialise_system_info : Talloc → SystemInfo → Message → Outcome SystemInfo
deserialise_system_info t s m = read_system_info t s (start m)
