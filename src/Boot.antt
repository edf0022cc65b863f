-- ===== src/Boot.antt =====
-- discover/boot.c: boot, boot_process and what they call, as the types of the statuses that they
-- report, in order, and the task that boot returns. Texts of messages, the clean-up of downloaded
-- files and the environment of the proxies are left out.
pub mod Reports
use petitboot.Base.{
  ℕ, Bool, true, false, ◌||◌, Option, none, some, List, [], ◌∷◌, ◌++◌, ◌==◌, if◌then◌else◌, Bytes,
}
use petitboot.Talloc.{CStr}
use petitboot.Types.{BootCommand, status_info, status_error}
use petitboot.DeviceHandler.State.{BootRun}

-- The status of a `struct load_url_result`.
pub data LoadStatus : Type 0 where
  load_ok : LoadStatus
  load_error : LoadStatus
  load_async : LoadStatus
  load_cancelled : LoadStatus

-- What boot is told by the code around it: parsing of URLs and names of signatures, the start of
-- a download by the resource's number (`none` is a null pointer), whether there are boot hooks,
-- the platform's check (whether it has a message, and what it returns), the results of
-- validate_boot_files, of the kexec processes, and the security mode.
pub record World : Type 0 where
  pub pb_url_parse : Bytes → CStr
  pub get_signature_url : Bytes → CStr
  pub load_url_async : ℕ → Bytes → Option LoadStatus
  pub has_hooks : Bool
  pub check_message : Bool
  pub check_result : Bool
  pub validate_boot_files : ℕ
  pub kexec_run : ℕ
  pub kexec_reboot : ℕ
  pub verify_signature : Bool
  pub decrypt_files : Bool
  pub task : ℕ

-- The URLs of the option's resources; all are `none` without an option.
pub record OptionUrls : Type 0 where
  pub image : CStr
  pub initrd : CStr
  pub dtb : CStr
  pub args_sig : CStr

pub record BootResource : Type 0 where
  pub name : ℕ
  pub url : Bytes

-- `cmd && cmd->file` is parsed, or else the option's URL is taken.
abbrev pub choose_url : World → CStr → CStr → CStr
choose_url w (some file) url = w.pb_url_parse file
choose_url w none url = url

-- add_boot_resource gives no resource for a null URL.
abbrev pub add_boot_resource : ℕ → CStr → List BootResource
add_boot_resource name none = []
add_boot_resource name (some url) = record { name = name; url = url } ∷ []

-- `start_url_load(a) || start_url_load(b) || ...`: whether one failed, and it ends there.
unfoldable pub start_until : World → List BootResource → Bool
start_until w [] = false
start_until w (r ∷ rs) = elim (w.load_url_async r.name r.url) [
  | none ↦ true
  | some s ↦ start_until w rs
]

-- `rc |= start_url_load(...)` for each: the reports of those that failed.
unfoldable pub start_each : World → List BootResource → List ℕ
start_each w [] = []
start_each w (r ∷ rs) = elim (w.load_url_async r.name r.url) [
  | none ↦ status_error ∷ start_each w rs
  | some s ↦ start_each w rs
]

unfoldable pub load_pending : Option LoadStatus → Bool
load_pending none = true
load_pending (some load_ok) = false
load_pending (some load_error) = false
load_pending (some load_async) = true
load_pending (some load_cancelled) = false

unfoldable pub any_pending : World → List BootResource → Bool
any_pending w [] = false
any_pending w (r ∷ rs) =
    if load_pending (w.load_url_async r.name r.url) then true else any_pending w rs

-- The reports of check_load, and whether it fails.
unfoldable pub check_load : Option LoadStatus → List ℕ × Bool
check_load none = ([], false)
check_load (some load_ok) = (status_error ∷ [], false)
check_load (some load_error) = (status_error ∷ [], true)
check_load (some load_async) = (status_error ∷ [], false)
check_load (some load_cancelled) = (status_error ∷ [], false)

-- check_load for each resource, until one fails.
unfoldable pub check_loads : World → List BootResource → List ℕ × Bool
check_loads w [] = ([], false)
check_loads w (r ∷ rs) =
    let (types, failed) = check_load (w.load_url_async r.name r.url) in
    let (later, failed_later) = check_loads w rs in
    if failed then (types, true) else (types ++ later, failed_later)

-- kexec_load reports an error when the files are not valid, and when no attempt of kexec succeeds.
unfoldable pub kexec_load : World → List ℕ × ℕ
kexec_load w =
    if w.validate_boot_files == 0
    then ((if w.kexec_run == 0 then [] else status_error ∷ []), w.kexec_run)
    else (status_error ∷ [], w.validate_boot_files)

-- From kexec_load to the end of boot_process.
unfoldable pub load_and_reboot : World → List ℕ
load_and_reboot w =
    let (types, rc) = kexec_load w in
    types
    ++ (if rc == 0
        then status_info ∷ (if w.kexec_reboot == 0 then [] else status_error ∷ [])
        else [])

-- From run_boot_hooks on.
unfoldable pub hooks_and_check : World → List ℕ
hooks_and_check w =
    (if w.has_hooks then status_info ∷ [] else [])
    ++ (if w.check_message then status_error ∷ [] else [])
    ++ (if w.check_result then status_info ∷ load_and_reboot w else [])

-- boot_process, called by boot for a task that is not cancelled.
unfoldable pub boot_process : World → List BootResource → List ℕ
boot_process w resources =
    if any_pending w resources
    then []
    else let (types, failed) = check_loads w resources in
      if failed then types else types ++ hooks_and_check w

abbrev pub signature : World → ℕ → CStr → List BootResource
signature w name none = []
signature w name (some url) = add_boot_resource name (w.get_signature_url url)

-- The files themselves, and the signatures that the security mode asks for.
abbrev pub file_resources : CStr → CStr → CStr → List BootResource
file_resources image initrd dtb =
    add_boot_resource 0 image ++ add_boot_resource 1 initrd ++ add_boot_resource 2 dtb

abbrev pub signature_resources : World → CStr → CStr → CStr → CStr → List BootResource
signature_resources w image initrd dtb cmdline =
    (if w.verify_signature
      then signature w 3 image ++ signature w 4 initrd ++ signature w 5 dtb
      else [])
    ++ (if w.verify_signature || w.decrypt_files then add_boot_resource 6 cmdline else [])

-- list_add puts each new resource in front.
abbrev pub reverse_onto : List BootResource → List BootResource → List BootResource
reverse_onto [] later = later
reverse_onto (r ∷ rs) later = reverse_onto rs (r ∷ later)

-- The downloads, from `rc = start_url_load(...)` to the end of boot.
unfoldable pub start_loads : World → List BootResource → List BootResource → BootRun
start_loads w files signatures =
    let failed = start_until w files in
    let first = if failed then status_error ∷ [] else [] in
    elim (start_each w signatures) [
      | type ∷ types ↦ record { reports = status_info ∷ first ++ (type ∷ types); task = none }
      | [] ↦ if failed then record { reports = status_info ∷ first; task = none } else record {
        reports = status_info ∷ boot_process w (reverse_onto signatures (reverse_onto files []));
        task = some w.task;
      }
    ]

-- A file that the command names, where there is a command.
abbrev pub named : (BootCommand → CStr) → Option BootCommand → CStr
named field none = none
named field (some cmd) = field cmd

abbrev pub no_boot : BootRun
no_boot = record { reports = status_info ∷ status_error ∷ []; task = none }

-- boot once it has an image, whose URL can still be null.
-- The signature of the command line, from the command or from the option, and the downloads.
unfoldable pub start_signed :
    World → CStr → CStr → List BootResource → (CStr → List BootResource) → BootRun
start_signed w (some file) url files signatures =
    start_loads w files (signatures (w.pb_url_parse file))
start_signed w none (some url) files signatures = start_loads w files (signatures (some url))
start_signed w none none files signatures =
    if w.verify_signature || w.decrypt_files then no_boot else start_loads w files (signatures none)

-- boot once it has an image, whose URL can still be null.
unfoldable pub boot_image : World → OptionUrls → Option BootCommand → CStr → BootRun
boot_image w opt cmd image =
    let initrd = choose_url w (named (λ c. c.initrd_file) cmd) opt.initrd in
    let dtb = choose_url w (named (λ c. c.dtb_file) cmd) opt.dtb in
    start_signed w (named (λ c. c.args_sig_file) cmd) opt.args_sig (file_resources image initrd dtb)
      (signature_resources w image initrd dtb)

-- The image of the command, or of the option, or an error.
unfoldable pub boot_named : World → OptionUrls → Option BootCommand → CStr → CStr → BootRun
boot_named w opt cmd (some file) url = boot_image w opt cmd (w.pb_url_parse file)
boot_named w opt cmd none (some url) = boot_image w opt cmd (some url)
boot_named w opt cmd none none = no_boot

unfoldable pub boot : World → OptionUrls → Option BootCommand → BootRun
boot w opt cmd = boot_named w opt cmd (named (λ c. c.boot_image_file) cmd) opt.image
