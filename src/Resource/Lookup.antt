-- ===== src/Resource/Lookup.antt =====
-- Which device a resource finds.
use petitboot.CString.{is_prefix, is_prefix_ignorecase, strcmp_equal, tolower}
use petitboot.Base.{
  ℕ, ◌≡◌, refl, ap, ◌∙◌, Bool, true, false, none, some, List, [], ◌∷◌, ◌++◌, ◌==◌, if◌then◌else◌,
  Bytes, drop, All, All-weaken, arith,
}
use petitboot.Resource.{
  MountedDevice, Urls, resolved, unresolved, uuid_prefix, label_prefix, slashes, text_matches,
  device_match_uuid, device_match_label, device_lookup, parse_device_string,
  resolve_resource_against_device, split_colon, create_devpath_resource, resolve_devpath_resource,
}

device_lookup-none :
    (matches : MountedDevice → Bytes → Bool) (devs : List MountedDevice) (str : Bytes)
    → All (λ d. matches d str ≡ false) devs
    → device_lookup matches devs str ≡ none
unfolding device_lookup
device_lookup-none matches [] str h = refl
device_lookup-none matches (d ∷ devs) str (h, hs) =
    rw (device_lookup, h) (device_lookup-none matches devs str hs)

-- The byte that tolower takes to '='.
tolower-equals : (c : ℕ) → tolower c ≡ 61 → c ≡ 61
tolower-equals c e = ground arith

if-both : (b x : Bool) → (if b then x else false) ≡ true → (b ≡ true) × (x ≡ true)
if-both true x e = (refl, e)
if-both false x e = absurd cc

same_number : (a b : ℕ) → (a == b) ≡ true → a ≡ b
same_number a b h = ground arith

prefix-head :
    (s : Bytes) (p : ℕ) (prefix : Bytes)
    → is_prefix_ignorecase s (p ∷ prefix) ≡ true
    → (c : ℕ) × (t : Bytes) × (s ≡ c ∷ t)
      × (tolower c ≡ tolower p)
      × (is_prefix_ignorecase t prefix ≡ true)
prefix-head [] p prefix e = absurd cc
prefix-head (c ∷ t) p prefix e =
    let (same, rest) = if-both (tolower c == tolower p) (is_prefix_ignorecase t prefix) e in
    (c, t, refl, same_number (tolower c) (tolower p) same, rest)

uuid_prefix-drop :
    (s : Bytes) → is_prefix_ignorecase s uuid_prefix ≡ true → (t : Bytes) × (drop 4 s ≡ 61 ∷ t)
uuid_prefix-drop s e =
    let (c, s1, e1, l1, r1) = prefix-head s 117 (drop 1 uuid_prefix) e in
    let (c2, s2, e2, l2, r2) = prefix-head s1 117 (drop 2 uuid_prefix) r1 in
    let (c3, s3, e3, l3, r3) = prefix-head s2 105 (drop 3 uuid_prefix) r2 in
    let (c4, s4, e4, l4, r4) = prefix-head s3 100 (drop 4 uuid_prefix) r3 in
    let (c5, s5, e5, l5, r5) = prefix-head s4 61 [] r4 in
    (
      s5,
      ap (drop 4) e1
          ∙ ap (drop 3) e2
          ∙ ap (drop 2) e3
          ∙ ap (drop 1) e4
          ∙ e5
          ∙ ap (λ x. x ∷ s5) (tolower-equals c5 l5),
    )

-- A UUID that does not begin with an equals sign.
abbrev pub PlainUuid : MountedDevice → Type 0
PlainUuid dev = (t : Bytes) → text_matches dev.uuid (61 ∷ t) ≡ false

-- A device string that begins with "uuid=", in any case, finds no device, provided that no device
-- has a UUID that begins with an equals sign.
pub parse_device_string-uuid :
    (devs : List MountedDevice) (devstr : Bytes)
    → is_prefix_ignorecase devstr uuid_prefix ≡ true
    → All PlainUuid devs
    → parse_device_string devs devstr ≡ none
unfolding parse_device_string
parse_device_string-uuid devs devstr e plain =
    let (t, d) = uuid_prefix-drop devstr e in
    rw (parse_device_string, e, d)
      (device_lookup-none device_match_uuid devs (61 ∷ t) (All-weaken (λ dev h. h t) devs plain))

-- Neither byte is a colon.
abbrev pub NoColon : Bytes → Type 0
NoColon s = All (λ c. (c == 58) ≡ false) s

split_colon-append :
    (dev path : Bytes) → NoColon dev → split_colon (dev ++ 58 ∷ path) ≡ some (dev, path)
unfolding split_colon
split_colon-append [] path h = refl
split_colon-append (c ∷ dev) path (h, hs) = rw (split_colon, h, split_colon-append dev path hs) refl

strcmp_equal-same : (s : Bytes) → strcmp_equal s s ≡ true
strcmp_equal-same [] = refl
strcmp_equal-same (c ∷ s) = ground (arith, strcmp_equal-same s)

device_lookup-first :
    (matches : MountedDevice → Bytes → Bool) (before : List MountedDevice) (dev : MountedDevice)
    (after : List MountedDevice) (str : Bytes)
    → All (λ d. matches d str ≡ false) before
    → matches dev str ≡ true
    → device_lookup matches (before ++ dev ∷ after) str ≡ some dev
unfolding device_lookup
device_lookup-first matches [] dev after str h e = rw (device_lookup, e) refl
device_lookup-first matches (d ∷ before) dev after str (h, hs) e =
    rw (device_lookup, h) (device_lookup-first matches before dev after str hs e)

parse_device_string-label :
    (devs : List MountedDevice) (label : Bytes)
    → parse_device_string devs (label_prefix ++ label) ≡ device_lookup device_match_label devs label
unfolding parse_device_string
parse_device_string-label devs label = refl

-- A resource "label=L:P", where L has no colon and P does not begin with two slashes, waits for
-- its device. Once a device with the label L is known and no earlier one has it, the resource
-- resolves to P below that device's mount point.
resolve_devpath_resource-label :
    (u : Urls) (orig dev : MountedDevice) (before after : List MountedDevice) (label path : Bytes)
    → NoColon label
    → is_prefix path slashes ≡ false
    → All (λ d. device_match_label d label ≡ false) before
    → dev.label ≡ some label
    → (create_devpath_resource u orig ((label_prefix ++ label) ++ 58 ∷ path)
        ≡ some (unresolved (label_prefix ++ label) path))
      × (resolve_devpath_resource u
            (before ++ dev ∷ after)
            (unresolved (label_prefix ++ label) path)
          ≡ some (resolved (u.pb_url_parse (u.join_paths dev.mount_path path))))
unfolding create_devpath_resource resolve_devpath_resource resolve_resource_against_device
resolve_devpath_resource-label u orig dev before after label path plain local others named = (
  waits (
      split_colon-append (label_prefix ++ label) path
        (refl, (refl, (refl, (refl, (refl, (refl, plain))))))),
  found (
      parse_device_string-label (before ++ dev ∷ after) label
      ∙ device_lookup-first device_match_label before dev after label others
          (ap (λ l. text_matches l label) named ∙ strcmp_equal-same label)),
)
  where
    waits :
        split_colon ((label_prefix ++ label) ++ 58 ∷ path) ≡ some (label_prefix ++ label, path)
        → create_devpath_resource u orig ((label_prefix ++ label) ++ 58 ∷ path)
          ≡ some (unresolved (label_prefix ++ label) path)
    waits e = rw (create_devpath_resource, e, local) refl

    found :
        parse_device_string (before ++ dev ∷ after) (label_prefix ++ label) ≡ some dev
        → resolve_devpath_resource u
            (before ++ dev ∷ after)
            (unresolved (label_prefix ++ label) path)
          ≡ some (resolved (u.pb_url_parse (u.join_paths dev.mount_path path)))
    found e = rw (resolve_devpath_resource, e) refl
