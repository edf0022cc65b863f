-- ===== src/DeviceHandler/Completed.antt =====
-- The final data of a boot option: boot_option_finalise.
use petitboot.Base.{◌≡◌, refl, Option, none, some}
use petitboot.Talloc.{CStr}
use petitboot.Resource.{PbUrl, Resource, resolved, unresolved}
use petitboot.DeviceHandler.Queue.{
  Candidate, resource_is_resolved, final_file, boot_option_finalise,
}
use petitboot.DeviceHandler.Resolution.{IsClean, IsThere, IsDone, IsUsable, AreDone, IsAnnounced}

-- The URL of a resource that is resolved.
abbrev pub file_of : Option Resource → CStr
file_of none = none
file_of (some (resolved none)) = none
file_of (some (resolved (some url))) = some url.full
file_of (some (unresolved device path)) = none

-- The option as the clients get it: with the URLs of its resources and the id of its device.
abbrev pub completed : Candidate → Candidate
completed c = record c {
  option = record c.option {
    boot_image_file = file_of c.boot_image;
    initrd_file = file_of c.initrd;
    dtb_file = file_of c.dtb;
    icon_file = file_of c.icon;
    args_sig_file = file_of c.args_sig_file;
    device_id = c.device_id;
  };
}

final_file-IsDone :
    (r : Option Resource) (file : CStr)
    → IsClean r
    → IsDone r
    → file ≡ none
    → final_file r file ≡ some (file_of r)
unfolding final_file resource_is_resolved
final_file-IsDone r (some f) clean done null = absurd cc
final_file-IsDone none none clean done null = refl
final_file-IsDone (some (resolved none)) none clean done null = absurd clean
final_file-IsDone (some (resolved (some url))) none clean done null = refl
final_file-IsDone (some (unresolved device path)) none clean done null = absurd cc

image_url :
    (r : Option Resource)
    → IsThere r
    → IsClean r
    → IsDone r
    → (url : PbUrl) × (r ≡ some (resolved (some url))) × (file_of r ≡ some url.full)
unfolding resource_is_resolved
image_url none there clean done = absurd there
image_url (some (resolved none)) there clean done = absurd clean
image_url (some (resolved (some url))) there clean done = (url, refl, refl)
image_url (some (unresolved device path)) there clean done = absurd cc

pub completed-IsAnnounced : (c : Candidate) → IsUsable c → AreDone c → IsAnnounced (completed c)
completed-IsAnnounced c (can, fresh, there, a, b, d, e, f) (da, db, dd, de, df) =
    let (url, image, file) = image_url c.boot_image there a da in (url, image, file, refl)

pub boot_option_finalise-completed :
    (c : Candidate) → IsUsable c → AreDone c → boot_option_finalise c ≡ some (completed c)
unfolding boot_option_finalise
boot_option_finalise-completed c (can, (n0, n1, n2, n3, n4, n5), there, a, b, d, e, f)
      (da, db, dd, de, df) =
    let f0 = final_file-IsDone c.boot_image c.option.boot_image_file a da n0 in
    let f1 = final_file-IsDone c.initrd c.option.initrd_file b db n1 in
    let f2 = final_file-IsDone c.dtb c.option.dtb_file d dd n2 in
    let f3 = final_file-IsDone c.icon c.option.icon_file f df n3 in
    let f4 = final_file-IsDone c.args_sig_file c.option.args_sig_file e de n4 in cc
