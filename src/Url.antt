-- ===== src/Url.antt =====
-- lib/url/url.c: URLs and their parts. A missing result is a null pointer.
pub mod RoundTrip
use petitboot.CString.{codes, is_prefix, is_prefix_ignorecase, split_at}
use petitboot.Talloc.{CStr}
use petitboot.Base.{
  ℕ, zero, suc, ◌+◌, ◌-◌, Bool, true, false, ◌&&◌, Option, none, some, List, [], ◌∷◌, ◌++◌, ◌==◌,
  ltb, if◌then◌else◌, Bytes, length, take, drop,
}

-- `enum pb_url_scheme` without the unknown one.
pub data PbUrlScheme : Type 0 where
  file_scheme ftp_scheme http_scheme https_scheme nfs_scheme sftp_scheme tftp_scheme : PbUrlScheme

-- `struct pb_url`.
pub record UrlParts : Type 0 where
  pub scheme : PbUrlScheme
  pub full : Bytes
  pub host : CStr
  pub port : CStr
  pub path : Bytes
  pub dir : CStr
  pub file : Bytes

-- The texts of the table `schemes`.
unfoldable pub scheme_name : PbUrlScheme → Bytes
scheme_name file_scheme = codes "file"
scheme_name ftp_scheme = codes "ftp"
scheme_name http_scheme = codes "http"
scheme_name https_scheme = codes "https"
scheme_name nfs_scheme = codes "nfs"
scheme_name sftp_scheme = codes "sftp"
scheme_name tftp_scheme = codes "tftp"

abbrev pub has_host : PbUrlScheme → Bool
has_host file_scheme = false
has_host _ = true

abbrev pub schemes : List PbUrlScheme
schemes =
    file_scheme ∷ ftp_scheme ∷ http_scheme ∷ https_scheme ∷ nfs_scheme ∷ sftp_scheme ∷ tftp_scheme
    ∷ []

-- `"://"`
abbrev pub separator : Bytes
separator = 58 ∷ 47 ∷ 47 ∷ []

-- The loop over the schemes that are left.
unfoldable pub find_scheme : List PbUrlScheme → Bytes → Option PbUrlScheme
find_scheme [] url = none
find_scheme (s ∷ ss) url =
    if is_prefix (drop (length (scheme_name s)) url) separator
      && is_prefix_ignorecase url (scheme_name s)
    then some s
    else find_scheme ss url

unfoldable pub pb_url_find_scheme : Bytes → Option PbUrlScheme
pb_url_find_scheme url = find_scheme schemes url

-- strrchr: what is before the last such byte, and behind it.
unfoldable pub split_last : ℕ → Bytes → Option (Bytes × Bytes)
split_last c [] = none
split_last c (x ∷ s) = elim (split_last c s) [
  | some (before, after) ↦ some (x ∷ before, after)
  | none ↦ if x == c then some ([], s) else none
]

-- The directory, with its slash, and the file of the path.
unfoldable pub pb_url_parse_path : UrlParts → UrlParts
pb_url_parse_path url = elim (split_last 47 url.path) [
  | some (before, after) ↦ record url { dir = some (before ++ 47 ∷ []); file = after }
  | none ↦ record url { dir = none; file = url.path }
]

-- The last colon, unless it is the first byte or a bracket is closed behind it.
abbrev pub kept_colon : Option (Bytes × Bytes) → Option (Bytes × Bytes)
kept_colon none = none
kept_colon (some ([], after)) = none
kept_colon (some (c ∷ before, after)) = elim (split_at 93 after) [
  | none ↦ some (c ∷ before, after)
  | some r ↦ none
]

unfoldable pub find_colon : Bytes → Option (Bytes × Bytes)
find_colon p = kept_colon (split_last 58 p)

-- The port behind a colon at the offset `col`, up to the path at the offset `path`: a negative
-- length is a large one for talloc_strndup.
unfoldable pub port_of : ℕ → ℕ → Bytes → CStr
port_of path col after =
    if path == col + 1
    then none
    else if ltb path (col + 1)
    then some after
    else some (take (path - (col + 1)) after)

abbrev pub ends_bracket : Bytes → Bool
ends_bracket [] = false
ends_bracket (c ∷ []) = c == 93
ends_bracket (c ∷ d ∷ s) = ends_bracket (d ∷ s)

-- The host among the first bytes, without the brackets of an IPv6 address.
abbrev pub host_of : Bytes → Bytes
host_of [] = []
host_of (c ∷ s) = if (c == 91) && ends_bracket (c ∷ s) then take (length s - 1) s else c ∷ s

unfoldable pub one_slash : Bytes → Bytes
one_slash [] = []
one_slash (c ∷ []) = c ∷ []
one_slash (c ∷ d ∷ path) = if d == 47 then one_slash (d ∷ path) else c ∷ d ∷ path

-- The parts of `p`, which holds the path from its first slash.
unfoldable pub parse_authority : PbUrlScheme → Bytes → Bytes → Bytes → Bytes → UrlParts
parse_authority scheme full p authority path = elim (find_colon p) [
  | none ↦ record {
    scheme = scheme;
    full = full;
    host = some (host_of (take (length authority) p));
    port = none;
    path = one_slash (47 ∷ path);
    dir = none;
    file = [];
  }
  | some (before, after) ↦ record {
    scheme = scheme;
    full = full;
    host = some (host_of (take (length before) p));
    port = port_of (length authority) (length before) after;
    path = one_slash (47 ∷ path);
    dir = none;
    file = [];
  }
]

-- The branches by scheme, with the text `p` behind the scheme.
unfoldable pub parse_rest : PbUrlScheme → Bytes → Bytes → Option UrlParts
parse_rest scheme full p =
    if has_host scheme
    then elim (split_at 47 p) [
      | none ↦ none
      | some (authority, path) ↦
          some (pb_url_parse_path (parse_authority scheme full p authority path))
    ]
    else some (
        pb_url_parse_path (record {
          scheme = scheme;
          full = full;
          host = none;
          port = none;
          path = p;
          dir = none;
          file = [];
        }))

abbrev pub parse_found : Option PbUrlScheme → Bytes → Option UrlParts
parse_found none url = parse_rest file_scheme url url
parse_found (some s) url = parse_rest s url (drop (length (scheme_name s) + 3) url)

-- An empty text fails an assertion, or gives a null pointer without assertions.
unfoldable pub pb_url_parse : Bytes → Option UrlParts
pb_url_parse [] = none
pb_url_parse (c ∷ url) = parse_found (pb_url_find_scheme (c ∷ url)) (c ∷ url)

abbrev pub printed_port : CStr → Bytes
printed_port none = []
printed_port (some port) = 58 ∷ port

-- `%s` of a host.
abbrev pub printed_host : CStr → Bytes
printed_host none = []
printed_host (some host) = host

-- `is_ipv6` is whether inet_pton takes the text for an address of AF_INET6, and not of AF_INET.
unfoldable pub pb_url_to_string : (CStr → Bool) → UrlParts → Bytes
pb_url_to_string is_ipv6 url =
    scheme_name url.scheme
    ++ (separator
        ++ ((if has_host url.scheme
              then (if is_ipv6 url.host
                  then 91 ∷ (printed_host url.host ++ 93 ∷ [])
                  else printed_host url.host)
              else [])
            ++ (printed_port url.port ++ url.path)))

-- `strstr(str, "://") != NULL`
unfoldable pub is_url : Bytes → Bool
is_url [] = false
is_url (c ∷ s) = if is_prefix (c ∷ s) separator then true else is_url s

-- `%s` of a directory: the C library's text for a null pointer.
abbrev pub printed_dir : CStr → Bytes
printed_dir none = codes "(null)"
printed_dir (some dir) = dir

unfoldable pub joined_path : UrlParts → Bytes → Bytes
joined_path url [] = printed_dir url.dir
joined_path url (c ∷ s) = if c == 47 then c ∷ s else printed_dir url.dir ++ c ∷ s

unfoldable pub pb_url_join : (CStr → Bool) → UrlParts → Bytes → Option UrlParts
pb_url_join is_ipv6 url s =
    let new_url = pb_url_parse_path (record url { path = joined_path url s }) in
    if is_url s
    then pb_url_parse s
    else some (record new_url { full = pb_url_to_string is_ipv6 new_url })
