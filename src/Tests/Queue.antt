-- ===== src/Tests/Queue.antt =====
-- Examples of the queue of unresolved boot options in discover/device-handler.c.
use petitboot.CString.{codes}
use petitboot.Base.{true, false, none, some, [], ◌∷◌}
use petitboot.Types.{BootOption}
use petitboot.Resource.{Resource, resolved, unresolved}
use petitboot.DeviceHandler.Queue.{Candidate, Discovery}
use petitboot.Tests.Data.{text}
use petitboot.Tests.Messages.{entry}

abbrev fresh_option : BootOption
fresh_option = record entry { device_id = none; boot_image_file = none }

abbrev on_sda2 : Candidate
on_sda2 = record {
  option = fresh_option;
  device = 1;
  device_id = text "sda";
  resolves = true;
  boot_image = some (unresolved (codes "sda2") (codes "/vmlinux"));
  initrd = none;
  dtb = none;
  args_sig_file = none;
  icon = none;
}

abbrev nothing_found : Discovery
nothing_found = record {
  unresolved_boot_options = [];
  boot_options = λ d. [];
  notified = λ d. false;
  announcements = [];
}

abbrev sda2_queued : Discovery
sda2_queued = record nothing_found { unresolved_boot_options = on_sda2 ∷ [] }

abbrev absent : Resource → Resource
absent r = r

abbrev mounted : Resource → Resource
mounted r = resolved (
    some
      (record { scheme = 1; full = codes "/mnt/sda2/vmlinux"; path = codes "/mnt/sda2/vmlinux" }))
