-- ===== src/Tests/Resources.antt =====
-- Examples of discover/resource.c: two mounted disks.
use petitboot.CString.{codes}
use petitboot.Base.{◌≡◌, refl, none, some, [], ◌∷◌, ◌++◌, All}
use petitboot.Resource.{MountedDevice, Urls, parse_device_string}
use petitboot.Resource.Lookup.{PlainUuid, parse_device_string-uuid}
use petitboot.Tests.Data.{text}

abbrev boot_disk : MountedDevice
boot_disk = record {
  id = codes "sda1";
  uuid = text "1234";
  label = none;
  mount_path = codes "/mnt/sda1";
}

abbrev root_disk : MountedDevice
root_disk = record {
  id = codes "sda2";
  uuid = text "5678";
  label = text "root";
  mount_path = codes "/mnt/sda2";
}

abbrev plain_urls : Urls
plain_urls = record {
  pb_url_parse = λ s. some (record { scheme = 1; full = s; path = s });
  join_paths = λ a b. a ++ b;
}

no_equals : All PlainUuid (boot_disk ∷ root_disk ∷ [])
no_equals = ((λ t. refl), ((λ t. refl), tt))

boot_disk_missed : parse_device_string (boot_disk ∷ root_disk ∷ []) (codes "UUID=1234") ≡ none
boot_disk_missed =
    parse_device_string-uuid (boot_disk ∷ root_disk ∷ []) (codes "UUID=1234") refl no_equals
