-- ===== src/Protocol/PluginOption.antt =====
-- Plugin announcements: lib/pb-protocol/pb-protocol.c, `pb_protocol_plugin_option_len`,
-- `pb_protocol_serialise_plugin_option` and `pb_protocol_deserialise_plugin_option`.
pub mod RoundTrip
use petitboot.Types.{PluginOption}
use petitboot.Base.{ℕ, ◌+◌, ◌++◌, u32, Bytes, length}
use petitboot.Talloc.{Talloc}
use petitboot.Protocol.Words.{put_be32, put_all}
use petitboot.Protocol.Reader.{
  Reader, Outcome, ◌>>=◌, pure, read_string, read_u32, read_n, Message, start,
}
use petitboot.Protocol.Fields.{
  optional_strlen, strings_len, put_string, Written, finish, read_strdup, check,
}

unfoldable pub plugin_option_len : PluginOption → ℕ
plugin_option_len p = u32 (
    4
    + optional_strlen p.id
    + (4 + optional_strlen p.name)
    + (4 + optional_strlen p.vendor)
    + (4 + optional_strlen p.vendor_id)
    + (4 + optional_strlen p.version)
    + (4 + optional_strlen p.date)
    + (4 + optional_strlen p.plugin_file)
    + 4
    + strings_len p.executables)

unfoldable pub plugin_option_bytes : PluginOption → Bytes
plugin_option_bytes p =
    put_string p.id
    ++ (put_string p.name
        ++ (put_string p.vendor
            ++ (put_string p.vendor_id
                ++ (put_string p.version
                    ++ (put_string p.date
                        ++ (put_string p.plugin_file
                            ++ (put_be32 (length p.executables)
                                ++ put_all put_string p.executables)))))))

unfoldable pub serialise_plugin_option : PluginOption → ℕ → Written
serialise_plugin_option p buf_len = finish (plugin_option_bytes p) buf_len

unfoldable pub read_plugin_option : Talloc → Reader PluginOption
read_plugin_option t = do
  id ← read_string t
  name ← read_string t
  vendor ← read_string t
  vendor_id ← read_string t
  version ← read_string t
  date ← read_string t
  plugin_file ← read_string t
  n ← read_u32
  _ ← check (t.zero_array n)
  executables ← read_n n (read_strdup t)
  pure (record {
    id = id;
    name = name;
    vendor = vendor;
    vendor_id = vendor_id;
    version = version;
    date = date;
    plugin_file = plugin_file;
    executables = executables;
  })

unfoldable pub deserialise_plugin_option : Talloc → Message → Outcome PluginOption
deserialise_plugin_option t m = read_plugin_option t (start m)
