-- ===== src/Protocol/SystemInfo/RoundTrip.antt =====
-- What a client makes of a system information message.
use petitboot.Types.{SystemInfo}
use petitboot.Protocol.SystemInfo.{
  system_info_len, stb_bytes, system_info_tail, system_info_bytes, serialise_system_info,
  read_system_info_tail, read_system_info, deserialise_system_info,
}
use petitboot.Protocol.SystemInfo.Sizes.{
  length-le-interface_infos_len, length-le-blockdev_infos_len, length-system_info_bytes,
  system_info_len_lem,
}
use petitboot.Base.{ℕ, ◌+◌, ◌^◌, ◌<◌, ◌≡◌, some, map, arith, length}
use petitboot.Talloc.{Talloc}
use petitboot.Protocol.Fields.{received, written, message_of, value}
use petitboot.Protocol.Codec.{Reads, Decodes-Reads, Reads-seq, Reads-cast}
use petitboot.Protocol.Codec.Fields.{read_u32-Decodes}
use petitboot.Protocol.Codec.Strings.{length-le-strings_len, read_string-Decodes}
use petitboot.Protocol.Codec.Messages.{finish-written, Reads-message}
use petitboot.Protocol.SystemInfo.Items.{
  IsSystemInfo, received_interface_info, received_blockdev_info, received_mac, received_system_info,
  read_mac-Reads, read_stb-Reads, strings-Reads, interfaces-Reads, blockdevs-Reads,
}

-- What is stored when the fields up to the firmware versions are read.
system_info_head : SystemInfo → SystemInfo → SystemInfo
system_info_head old s = record old {
  type = received s.type;
  identifier = received s.identifier;
  platform_primary = map received s.platform_primary;
  platform_other = map received s.platform_other;
  bmc_current = map received s.bmc_current;
  bmc_golden = map received s.bmc_golden;
}

module _ (t : Talloc) (s : SystemInfo) (h : IsSystemInfo s) where
  read_system_info_tail-Reads :
      (d : SystemInfo)
      → length s.interfaces < 2 ^ 32
      → length s.blockdevs < 2 ^ 32
      → Reads (length s.interfaces) (read_system_info_tail t d) (system_info_tail s) (record d {
        interfaces = map received_interface_info s.interfaces;
        blockdevs = map received_blockdev_info s.blockdevs;
        bmc_mac = received_mac d.bmc_mac s.bmc_mac;
        stb_fw_measurement = s.stb_fw_measurement;
        stb_fw_enforcing = s.stb_fw_enforcing;
        stb_os_enforcing = s.stb_os_enforcing;
      })
  unfolding read_system_info_tail system_info_tail stb_bytes
  read_system_info_tail-Reads d i b = Reads-cast (omega arith) (
      Reads-seq _ (Decodes-Reads (read_u32-Decodes (length s.interfaces) i)) (
        Reads-seq _ (interfaces-Reads t s h) (
          Reads-seq _ (Decodes-Reads (read_u32-Decodes (length s.blockdevs) b)) (
            Reads-seq _ (blockdevs-Reads t s h) (
              Reads-seq _ (read_mac-Reads d.bmc_mac s.bmc_mac h.bmc_mac)
                (read_stb-Reads _ s.stb_fw_measurement s.stb_fw_enforcing s.stb_os_enforcing))))))

  read_system_info-Reads :
      (old : SystemInfo)
      → length (system_info_bytes s) < 2 ^ 32
      → Reads
          (length s.interfaces)
          (read_system_info t old)
          (system_info_bytes s)
          (received_system_info old s)
  unfolding read_system_info system_info_bytes received_system_info system_info_head
  read_system_info-Reads old k =
      let l = length-system_info_bytes s h.bmc_mac in
      let p = length-le-strings_len s.platform_primary in
      let o = length-le-strings_len s.platform_other in
      let c = length-le-strings_len s.bmc_current in
      let g = length-le-strings_len s.bmc_golden in
      let i = length-le-interface_infos_len s.interfaces in
      let b = length-le-blockdev_infos_len s.blockdevs in
      Reads-cast (omega arith) (
        Reads-seq _ (Decodes-Reads (read_string-Decodes t s.type h.type)) (
          Reads-seq _ (Decodes-Reads (read_string-Decodes t s.identifier h.identifier)) (
            Reads-seq _ (Decodes-Reads (read_u32-Decodes (length s.platform_primary) (omega arith)))
              (Reads-seq _ (strings-Reads t s.platform_primary h.platform_primary) (
                Reads-seq _
                  (Decodes-Reads (read_u32-Decodes (length s.platform_other) (omega arith)))
                  (Reads-seq _ (strings-Reads t s.platform_other h.platform_other) (
                    Reads-seq _
                      (Decodes-Reads (read_u32-Decodes (length s.bmc_current) (omega arith)))
                      (Reads-seq _ (strings-Reads t s.bmc_current h.bmc_current) (
                        Reads-seq _
                          (Decodes-Reads (read_u32-Decodes (length s.bmc_golden) (omega arith)))
                          (Reads-seq _ (strings-Reads t s.bmc_golden h.bmc_golden) (
                            read_system_info_tail-Reads (system_info_head old s) (omega arith)
                              (omega arith))))))))))))

-- System information that the server writes into a buffer of `pb_protocol_system_info_len` bytes
-- fits exactly, and a client reads the same information from it: each empty string is read as a
-- null pointer, and an address of zeros, like none, leaves the client's address as it was. The
-- information is well formed and the message, with a byte more for each interface, is shorter than
-- 2 ^ 31 bytes.
pub deserialise_system_info-serialise_system_info :
    (t : Talloc) (action : ℕ) (old s : SystemInfo)
    → IsSystemInfo s
    → length (system_info_bytes s) + length s.interfaces < 2 ^ 31
    → (system_info_len s ≡ length (system_info_bytes s))
      × (serialise_system_info s (system_info_len s) ≡ written (system_info_bytes s))
      × (value (deserialise_system_info t old (message_of action (system_info_bytes s)))
          ≡ some (received_system_info old s))
unfolding serialise_system_info deserialise_system_info
deserialise_system_info-serialise_system_info t action old s h k =
    let l = system_info_len_lem s h.bmc_mac (omega arith) in
    (
      l,
      finish-written _ _ (omega arith) (omega arith),
      Reads-message _ action (read_system_info-Reads t s h old (omega arith)) (omega arith),
    )
