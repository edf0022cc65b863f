-- ===== src/Protocol/SystemInfo/Items.antt =====
-- The items of a system information message meet their readers.
use petitboot.CString.{strcmp_equal}
use petitboot.Types.{InterfaceInfo, BlockdevInfo, SystemInfo, hwaddr_size}
use petitboot.Protocol.SystemInfo.{
  interface_info_bytes, blockdev_info_bytes, mac_bytes, read_interface_info, read_blockdev_info,
  any_nonzero, read_mac,
}
use petitboot.Protocol.SystemInfo.Sizes.{IsMac, length-mac_bytes}
use mathlib.Core.Path.{subst}
use petitboot.Base.{
  ◌*◌, ◌^◌, ◌<◌, ◌≡◌, refl, ap, ◌∙◌, Bool, true, false, not, Bytes, none, some, List, [], ◌∷◌, ◌++◌,
  map, arith, length, All, All-weaken, if◌then◌else◌,
}
use petitboot.Talloc.{Talloc, CStr}
use petitboot.Protocol.Words.{put_all}
use petitboot.Protocol.Reader.{done, ◌>>=◌, pure, read_n, load_bool, load_bytes, cursor, lower_len}
use petitboot.Protocol.Fields.{IsString, AreStrings, received, put_string, put_bool, read_strdup}
use petitboot.Protocol.Codec.{
  Decodes, Reads, Decodes-Reads, seq, last, Reads-seq, Reads-last, read_n-Reads, read_n-Decodes,
  >>=-done,
}
use petitboot.Protocol.Codec.Fields.{
  read_u32-Decodes, load_bool-Reads, read_bytes-Decodes, lowered-Reads, load_bool_lem,
  load_bytes_lem,
}
use petitboot.Protocol.Codec.Strings.{read_string-Decodes, read_strdups-Decodes}

pub record IsInterfaceInfo (i : InterfaceInfo) : Type 0 where
  pub hwaddr : length i.hwaddr < 2 ^ 32
  pub name : IsString i.name
  pub address : IsString i.address
  pub address_v6 : IsString i.address_v6

pub record IsBlockdevInfo (b : BlockdevInfo) : Type 0 where
  pub name : IsString b.name
  pub uuid : IsString b.uuid
  pub mountpoint : IsString b.mountpoint

-- Every part of the system information is well formed.
pub record IsSystemInfo (s : SystemInfo) : Type 0 where
  pub type : IsString s.type
  pub identifier : IsString s.identifier
  pub platform_primary : AreStrings s.platform_primary
  pub platform_other : AreStrings s.platform_other
  pub bmc_current : AreStrings s.bmc_current
  pub bmc_golden : AreStrings s.bmc_golden
  pub interfaces : All IsInterfaceInfo s.interfaces
  pub blockdevs : All IsBlockdevInfo s.blockdevs
  pub bmc_mac : IsMac s.bmc_mac

unfoldable pub received_interface_info : InterfaceInfo → InterfaceInfo
received_interface_info i = record i {
  name = received i.name;
  address = received i.address;
  address_v6 = received i.address_v6;
}

unfoldable pub received_blockdev_info : BlockdevInfo → BlockdevInfo
received_blockdev_info b = record {
  name = received b.name;
  uuid = received b.uuid;
  mountpoint = received b.mountpoint;
}

-- An address of zeros, like none, leaves the field as it was.
unfoldable pub received_mac : CStr → CStr → CStr
received_mac old none = old
received_mac old (some mac) =
    if strcmp_equal mac (0 ∷ 0 ∷ 0 ∷ 0 ∷ 0 ∷ 0 ∷ []) then old else some mac

any_nonzero-strcmp_equal :
    (mac : Bytes)
    → length mac ≡ 6
    → any_nonzero mac ≡ not (strcmp_equal mac (0 ∷ 0 ∷ 0 ∷ 0 ∷ 0 ∷ 0 ∷ []))
unfolding any_nonzero
any_nonzero-strcmp_equal (a ∷ b ∷ c ∷ d ∷ e ∷ f ∷ []) h = ground arith
any_nonzero-strcmp_equal _ h = absurd (omega arith)

stored_mac :
    (old m : CStr)
    → IsMac m
    → (if any_nonzero (mac_bytes m) then some (mac_bytes m) else old) ≡ received_mac old m
unfolding received_mac mac_bytes any_nonzero
stored_mac old none h = refl
stored_mac old (some mac) h =
    ap (λ b. if b then some mac else old) (any_nonzero-strcmp_equal mac h)
    ∙ turned (strcmp_equal mac (0 ∷ 0 ∷ 0 ∷ 0 ∷ 0 ∷ 0 ∷ []))
  where
    turned : (b : Bool) → (if not b then some mac else old) ≡ (if b then old else some mac)
    turned true = refl
    turned false = refl

unfoldable pub received_system_info : SystemInfo → SystemInfo → SystemInfo
unfolding received_interface_info received_blockdev_info received_mac
received_system_info old s = record s {
  type = received s.type;
  identifier = received s.identifier;
  platform_primary = map received s.platform_primary;
  platform_other = map received s.platform_other;
  bmc_current = map received s.bmc_current;
  bmc_golden = map received s.bmc_golden;
  interfaces = map received_interface_info s.interfaces;
  blockdevs = map received_blockdev_info s.blockdevs;
  bmc_mac = received_mac old.bmc_mac s.bmc_mac;
}

pub read_mac-Reads :
    (old m : CStr) → IsMac m → Reads 0 (read_mac old) (mac_bytes m) (received_mac old m)
unfolding read_mac
read_mac-Reads old m h =
    subst (λ r. Reads 0 (read_mac old) (mac_bytes m) r) (stored_mac old m h)
      (lowered-Reads hwaddr_size (load_bytes hwaddr_size)
        (λ mac. if any_nonzero mac then some mac else old) (mac_bytes m) (mac_bytes m)
        (length-mac_bytes m h)
        (λ rest n.
          subst
            (λ k.
              load_bytes k (cursor (mac_bytes m ++ rest) n) ≡ done (mac_bytes m) (cursor rest n))
            (length-mac_bytes m h) (load_bytes_lem (mac_bytes m) rest n)))

-- The three flags of the secure boot state, taken off the counter together.
module _ {A : Type 0} (f : Bool → Bool → Bool → A) (x y z : Bool) where
  pub read_stb-Reads :
      Reads 0
        (load_bool >>= λ a.
          load_bool >>= λ b. load_bool >>= λ c. lower_len (3 * 1) >>= λ _. pure (f a b c))
        (put_bool x ++ (put_bool y ++ put_bool z))
        (f x y z)
  unfolding lower_len pure put_bool
  read_stb-Reads = record {
    leaves = λ rest n h.
        >>=-done load_bool _ (load_bool_lem x (put_bool y ++ (put_bool z ++ rest)) _)
        ∙ >>=-done load_bool _ (load_bool_lem y (put_bool z ++ rest) _)
        ∙ >>=-done load_bool _ (load_bool_lem z rest _)
        ∙ >>=-done (lower_len (3 * 1)) (λ _. pure (f x y z)) refl
        ∙ ap (λ j. done (f x y z) (cursor rest j)) (omega arith);
  }

-- Each interface leaves one byte too many on the counter: that of `link`.
module _ (t : Talloc) where
  read_interface_info-Reads :
      (i : InterfaceInfo)
      → IsInterfaceInfo i
      → Reads 1 (read_interface_info t) (interface_info_bytes i) (received_interface_info i)
  unfolding read_interface_info interface_info_bytes received_interface_info
  read_interface_info-Reads i h =
      Reads-seq _ (Decodes-Reads (read_u32-Decodes (length i.hwaddr) h.hwaddr)) (
        Reads-seq _ (Decodes-Reads (read_bytes-Decodes i.hwaddr)) (
          Reads-seq _ (Decodes-Reads (read_string-Decodes t i.name h.name)) (
            Reads-seq _ (load_bool-Reads i.link) (
              Reads-seq _ (Decodes-Reads (read_string-Decodes t i.address h.address))
                (Reads-last _ (Decodes-Reads (read_string-Decodes t i.address_v6 h.address_v6)))))))

  read_blockdev_info-Decodes :
      (b : BlockdevInfo)
      → IsBlockdevInfo b
      → Decodes (read_blockdev_info t) (blockdev_info_bytes b) (received_blockdev_info b)
  unfolding read_blockdev_info blockdev_info_bytes received_blockdev_info
  read_blockdev_info-Decodes b h = seq _ (read_string-Decodes t b.name h.name) (
      seq _ (read_string-Decodes t b.uuid h.uuid)
        (last _ (read_string-Decodes t b.mountpoint h.mountpoint)))

  pub strings-Reads :
      (ss : List CStr)
      → AreStrings ss
      → Reads 0 (read_n (length ss) (read_strdup t)) (put_all put_string ss) (map received ss)
  strings-Reads ss v = Decodes-Reads (read_strdups-Decodes t ss v)

  pub interfaces-Reads :
      (s : SystemInfo)
      → IsSystemInfo s
      → Reads
          (length s.interfaces)
          (read_n (length s.interfaces) (read_interface_info t))
          (put_all interface_info_bytes s.interfaces)
          (map received_interface_info s.interfaces)
  interfaces-Reads s h =
      read_n-Reads (read_interface_info t) interface_info_bytes received_interface_info s.interfaces
        (All-weaken (λ x v. read_interface_info-Reads x v) s.interfaces h.interfaces)

  pub blockdevs-Reads :
      (s : SystemInfo)
      → IsSystemInfo s
      → Reads 0
          (read_n (length s.blockdevs) (read_blockdev_info t))
          (put_all blockdev_info_bytes s.blockdevs)
          (map received_blockdev_info s.blockdevs)
  blockdevs-Reads s h = Decodes-Reads (
      read_n-Decodes (read_blockdev_info t) blockdev_info_bytes received_blockdev_info s.blockdevs
        (All-weaken (λ x v. read_blockdev_info-Decodes x v) s.blockdevs h.blockdevs))
