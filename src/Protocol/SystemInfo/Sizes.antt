-- ===== src/Protocol/SystemInfo/Sizes.antt =====
-- The space that a system information message takes.
use petitboot.Types.{InterfaceInfo, BlockdevInfo, SystemInfo, hwaddr_size}
use petitboot.Protocol.SystemInfo.{
  interface_infos_len, blockdev_infos_len, system_info_len, interface_info_bytes,
  blockdev_info_bytes, mac_bytes, stb_bytes, system_info_tail, system_info_bytes,
}
use petitboot.Base.{
  ◌+◌, ◌^◌, ◌<◌, ◌≤◌, ◌≡◌, refl, none, some, List, [], ◌∷◌, arith, length, length-append,
}
use petitboot.Talloc.{CStr}
use petitboot.Protocol.Words.{put_all, length-put_be32}
use petitboot.Protocol.Fields.{put_bool, optional_strlen, strings_len}
use petitboot.Protocol.Codec.Strings.{length-put_string, length-put_strings}

-- A management controller's address has six bytes.
abbrev pub IsMac : CStr → Type 0
IsMac none = Unit
IsMac (some mac) = length mac ≡ hwaddr_size

length-interface_infos :
    (is : List InterfaceInfo) → length (put_all interface_info_bytes is) ≡ interface_infos_len is
unfolding put_all interface_infos_len interface_info_bytes put_bool
length-interface_infos [] = refl
length-interface_infos (i ∷ is) =
    omega (arith, length-append {0}, length-put_be32, length-put_string, length-interface_infos is)

length-blockdev_infos :
    (bs : List BlockdevInfo) → length (put_all blockdev_info_bytes bs) ≡ blockdev_infos_len bs
unfolding put_all blockdev_infos_len blockdev_info_bytes
length-blockdev_infos [] = refl
length-blockdev_infos (b ∷ bs) =
    omega (arith, length-append {0}, length-put_string, length-blockdev_infos bs)

pub length-le-interface_infos_len : (is : List InterfaceInfo) → length is ≤ interface_infos_len is
unfolding interface_infos_len
length-le-interface_infos_len [] = omega arith
length-le-interface_infos_len (i ∷ is) = omega (arith, length-le-interface_infos_len is)

pub length-le-blockdev_infos_len : (bs : List BlockdevInfo) → length bs ≤ blockdev_infos_len bs
unfolding blockdev_infos_len
length-le-blockdev_infos_len [] = omega arith
length-le-blockdev_infos_len (b ∷ bs) = omega (arith, length-le-blockdev_infos_len bs)

pub length-mac_bytes : (m : CStr) → IsMac m → length (mac_bytes m) ≡ hwaddr_size
unfolding mac_bytes
length-mac_bytes none h = refl
length-mac_bytes (some mac) h = h

length-system_info_tail :
    (s : SystemInfo)
    → IsMac s.bmc_mac
    → length (system_info_tail s)
      ≡ interface_infos_len s.interfaces + blockdev_infos_len s.blockdevs + 17
unfolding system_info_tail stb_bytes put_bool
length-system_info_tail s h = omega (
  arith,
  length-append {0},
  length-put_be32,
  length-interface_infos s.interfaces,
  length-blockdev_infos s.blockdevs,
  length-mac_bytes s.bmc_mac h,
)

pub length-system_info_bytes :
    (s : SystemInfo)
    → IsMac s.bmc_mac
    → length (system_info_bytes s)
      ≡ optional_strlen s.type
        + optional_strlen s.identifier
        + strings_len s.platform_primary
        + strings_len s.platform_other
        + strings_len s.bmc_current
        + strings_len s.bmc_golden
        + interface_infos_len s.interfaces
        + blockdev_infos_len s.blockdevs
        + 41
unfolding system_info_bytes
length-system_info_bytes s h = omega (
  arith,
  length-append {0},
  length-put_be32,
  length-put_string,
  length-put_strings,
  length-system_info_tail s h,
)

pub system_info_len_lem :
    (s : SystemInfo)
    → IsMac s.bmc_mac
    → length (system_info_bytes s) < 2 ^ 32
    → system_info_len s ≡ length (system_info_bytes s)
unfolding system_info_len
system_info_len_lem s h b = omega (arith, length-system_info_bytes s h)
