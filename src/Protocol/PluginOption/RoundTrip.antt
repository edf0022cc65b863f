-- ===== src/Protocol/PluginOption/RoundTrip.antt =====
-- What the receiver makes of a plugin announcement.
use petitboot.Types.{PluginOption}
use petitboot.Protocol.PluginOption.{
  plugin_option_len, plugin_option_bytes, serialise_plugin_option, read_plugin_option,
  deserialise_plugin_option,
}
use petitboot.Base.{
  ℕ, ◌+◌, ◌^◌, ◌<◌, ◌≡◌, ◌≢◌, true, some, [], ◌++◌, map, arith, Bytes, length, length-append,
}
use petitboot.Talloc.{Talloc}
use petitboot.Protocol.Words.{length-put_be32}
use petitboot.Protocol.Reader.{refused}
use petitboot.Protocol.Fields.{
  IsString, AreStrings, received, optional_strlen, strings_len, written, message_of, value,
}
use petitboot.Protocol.Codec.{Decodes, seq, last}
use petitboot.Protocol.Codec.Fields.{read_u32-Decodes, check-Decodes}
use petitboot.Protocol.Codec.Strings.{
  length-put_string, length-put_strings, length-le-strings_len, read_string-Decodes,
  read_strdups-Decodes,
}
use petitboot.Protocol.Codec.Messages.{finish-written, Decodes-message, Decodes-truncated}

-- Every string of the plugin is a C string or null.
pub record IsPluginOption (p : PluginOption) : Type 0 where
  pub id : IsString p.id
  pub name : IsString p.name
  pub vendor : IsString p.vendor
  pub vendor_id : IsString p.vendor_id
  pub version : IsString p.version
  pub date : IsString p.date
  pub plugin_file : IsString p.plugin_file
  pub executables : AreStrings p.executables

unfoldable pub received_plugin_option : PluginOption → PluginOption
received_plugin_option p = record {
  id = received p.id;
  name = received p.name;
  vendor = received p.vendor;
  vendor_id = received p.vendor_id;
  version = received p.version;
  date = received p.date;
  plugin_file = received p.plugin_file;
  executables = map received p.executables;
}

length-plugin_option_bytes :
    (p : PluginOption)
    → length (plugin_option_bytes p)
      ≡ 4
        + optional_strlen p.id
        + (4 + optional_strlen p.name)
        + (4 + optional_strlen p.vendor)
        + (4 + optional_strlen p.vendor_id)
        + (4 + optional_strlen p.version)
        + (4 + optional_strlen p.date)
        + (4 + optional_strlen p.plugin_file)
        + 4
        + strings_len p.executables
unfolding plugin_option_bytes
length-plugin_option_bytes p =
    omega (arith, length-append {0}, length-put_string, length-put_be32, length-put_strings)

plugin_option_len_lem :
    (p : PluginOption)
    → length (plugin_option_bytes p) < 2 ^ 32
    → plugin_option_len p ≡ length (plugin_option_bytes p)
unfolding plugin_option_len
plugin_option_len_lem p h = omega (arith, length-plugin_option_bytes p)

module _ (t : Talloc) {p : PluginOption} (h : IsPluginOption p)
    (b : length (plugin_option_bytes p) < 2 ^ 32)
    (m : t.zero_array (length p.executables) ≡ true) where
  count_word : length p.executables < 2 ^ 32
  count_word = omega (arith, length-le-strings_len p.executables, length-plugin_option_bytes p)

  read_plugin_option-Decodes :
      Decodes (read_plugin_option t) (plugin_option_bytes p) (received_plugin_option p)
  unfolding read_plugin_option plugin_option_bytes received_plugin_option
  read_plugin_option-Decodes = seq _ (read_string-Decodes t p.id h.id) (
      seq _ (read_string-Decodes t p.name h.name) (
        seq _ (read_string-Decodes t p.vendor h.vendor) (
          seq _ (read_string-Decodes t p.vendor_id h.vendor_id) (
            seq _ (read_string-Decodes t p.version h.version) (
              seq _ (read_string-Decodes t p.date h.date) (
                seq _ (read_string-Decodes t p.plugin_file h.plugin_file) (
                  seq _ (read_u32-Decodes (length p.executables) count_word) (
                    seq _ (check-Decodes _ m)
                      (last _ (read_strdups-Decodes t p.executables h.executables))))))))))

-- A plugin option that is written into a buffer of `pb_protocol_plugin_option_len` bytes fits, and
-- the receiver reads the same option from it, with each empty string read as a null pointer. The
-- strings are C strings, the message is shorter than 2 ^ 31 bytes and the receiver gets memory for
-- the array.
deserialise_plugin_option-serialise_plugin_option :
    (t : Talloc) (action : ℕ) {p : PluginOption}
    → IsPluginOption p
    → length (plugin_option_bytes p) < 2 ^ 31
    → t.zero_array (length p.executables) ≡ true
    → (serialise_plugin_option p (plugin_option_len p) ≡ written (plugin_option_bytes p))
      × (value (deserialise_plugin_option t (message_of action (plugin_option_bytes p)))
          ≡ some (received_plugin_option p))
unfolding serialise_plugin_option deserialise_plugin_option
deserialise_plugin_option-serialise_plugin_option t action {p} h b m = (
  finish-written _ _ (omega (arith, plugin_option_len_lem p (omega arith)))
      (omega (arith, plugin_option_len_lem p (omega arith))),
  Decodes-message _ action (read_plugin_option-Decodes t h (omega arith) m) (omega arith),
)

-- A plugin option that is cut short anywhere is refused, under the same conditions.
deserialise_plugin_option-truncated :
    (t : Talloc) (action : ℕ) {p : PluginOption} (u v : Bytes)
    → IsPluginOption p
    → length (plugin_option_bytes p) < 2 ^ 32
    → t.zero_array (length p.executables) ≡ true
    → u ++ v ≡ plugin_option_bytes p
    → v ≢ []
    → deserialise_plugin_option t (message_of action u) ≡ refused
unfolding deserialise_plugin_option
deserialise_plugin_option-truncated t action u v h b m e ne =
    Decodes-truncated _ action u v (read_plugin_option-Decodes t h (omega arith) m) e ne b
