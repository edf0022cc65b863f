-- ===== src/Resource.antt =====
-- discover/resource.c, and device_lookup of discover/device-handler.c: files that a configuration
-- names by a URL, by a path on its own device, or by another device and a path. Parsing a URL
-- (lib/url) and joining paths (discover/paths.c) are arguments.
pub mod Lookup
use petitboot.CString.{is_prefix, is_prefix_ignorecase, strcmp_equal}
use petitboot.Base.{
  ℕ, ◌+◌, Bool, true, false, ◌&&◌, Option, none, some, List, [], ◌∷◌, ◌==◌, leb, if◌then◌else◌,
  Bytes, drop,
}
use petitboot.Talloc.{CStr}

-- The members of `struct pb_url` that are read here.
pub record PbUrl : Type 0 where
  pub scheme : ℕ
  pub full : Bytes
  pub path : Bytes

-- The members of `struct discover_device` that are read here; `id` is that of its `device`.
pub record MountedDevice : Type 0 where
  pub id : Bytes
  pub uuid : CStr
  pub label : CStr
  pub mount_path : Bytes

-- pb_url_parse and join_paths.
pub record Urls : Type 0 where
  pub pb_url_parse : Bytes → Option PbUrl
  pub join_paths : Bytes → Bytes → Bytes

abbrev pub pb_url_file : ℕ
pb_url_file = 1

-- A resource that is resolved has a URL, which is null when it could not be parsed.
pub data Resource : Type 0 where
  resolved : Option PbUrl → Resource
  unresolved : Bytes → Bytes → Resource

-- `"uuid="`, `"label="` and `"/dev/"`.
abbrev pub uuid_prefix : Bytes
uuid_prefix = 117 ∷ 117 ∷ 105 ∷ 100 ∷ 61 ∷ []

abbrev pub label_prefix : Bytes
label_prefix = 108 ∷ 97 ∷ 98 ∷ 101 ∷ 108 ∷ 61 ∷ []

abbrev pub dev_prefix : Bytes
dev_prefix = 47 ∷ 100 ∷ 101 ∷ 118 ∷ 47 ∷ []

-- `text && !strcmp(text, str)`.
abbrev pub text_matches : CStr → Bytes → Bool
text_matches none str = false
text_matches (some text) str = strcmp_equal text str

abbrev pub device_match_uuid : MountedDevice → Bytes → Bool
device_match_uuid dev uuid = text_matches dev.uuid uuid

abbrev pub device_match_label : MountedDevice → Bytes → Bool
device_match_label dev label = text_matches dev.label label

abbrev pub device_match_id : MountedDevice → Bytes → Bool
device_match_id dev id = strcmp_equal dev.id id

unfoldable pub device_lookup :
    (MountedDevice → Bytes → Bool) → List MountedDevice → Bytes → Option MountedDevice
device_lookup matches [] str = none
device_lookup matches (dev ∷ devs) str =
    if matches dev str then some dev else device_lookup matches devs str

unfoldable pub device_lookup_by_name : List MountedDevice → Bytes → Option MountedDevice
device_lookup_by_name devs name =
    device_lookup device_match_id devs (if is_prefix name dev_prefix then drop 5 name else name)

unfoldable pub parse_device_string : List MountedDevice → Bytes → Option MountedDevice
parse_device_string devs devstr =
    if is_prefix_ignorecase devstr uuid_prefix
    then device_lookup device_match_uuid devs (drop 4 devstr)
    else if is_prefix_ignorecase devstr label_prefix
    then device_lookup device_match_label devs (drop 6 devstr)
    else device_lookup_by_name devs devstr

unfoldable pub resolve_resource_against_device : Urls → MountedDevice → Bytes → Resource
resolve_resource_against_device u dev path =
    resolved (u.pb_url_parse (u.join_paths dev.mount_path path))

-- strchr(devpath, ':'): what is before it and behind it.
unfoldable pub split_colon : Bytes → Option (Bytes × Bytes)
split_colon [] = none
split_colon (c ∷ devpath) = if c == 58 then some ([], devpath) else elim (split_colon devpath) [
  | none ↦ none
  | some parts ↦ let (dev, path) = parts in some (c ∷ dev, path)
]

-- `"//"` behind the colon.
abbrev pub slashes : Bytes
slashes = 47 ∷ 47 ∷ []

-- `none` is a null pointer that is read: a URL with a scheme that cannot be parsed.
unfoldable pub create_devpath_resource : Urls → MountedDevice → Bytes → Option Resource
create_devpath_resource u orig_device devpath = elim (split_colon devpath) [
  | none ↦ some (resolve_resource_against_device u orig_device devpath)
  | some parts ↦
      let (dev, path) = parts in
      if is_prefix path slashes
      then (elim (u.pb_url_parse devpath) [
        | none ↦ none
        | some url ↦
            if url.scheme == pb_url_file
            then some (resolve_resource_against_device u orig_device url.path)
            else some (resolved (some url))
      ])
      else some (unresolved dev path)
]

-- The resource afterwards; its being resolved is what the code returns. The assertion that it was
-- not resolved before is the first clause.
unfoldable pub resolve_devpath_resource : Urls → List MountedDevice → Resource → Option Resource
resolve_devpath_resource u devs (resolved url) = none
resolve_devpath_resource u devs (unresolved dev path) = elim (parse_device_string devs dev) [
  | none ↦ some (unresolved dev path)
  | some found ↦ some (resolve_resource_against_device u found path)
]
