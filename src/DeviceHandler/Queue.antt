-- ===== src/DeviceHandler/Queue.antt =====
-- discover/device-handler.c: the boot options that a parser found, until all their files are
-- resolved: device_handler_discover_context_commit, process_boot_option_queue and what they call.
-- A missing result is a failed assertion or a call or load through a null pointer.
use petitboot.Base.Options.{◌>>=◌}
use petitboot.Base.{
  ℕ, Bool, true, false, ◌&&◌, Option, none, some, List, [], ◌∷◌, ◌++◌, ◌==◌, if◌then◌else◌,
}
use petitboot.Talloc.{CStr}
use petitboot.Types.{BootOption}
use petitboot.Resource.{Resource, resolved, unresolved}

-- `struct discover_boot_option`. `device` is the address of its device and `device_id` the id of
-- that; `resolves` says whether its parser has a function resolve_resource.
pub record Candidate : Type 0 where
  pub option : BootOption
  pub device : ℕ
  pub device_id : CStr
  pub resolves : Bool
  pub boot_image : Option Resource
  pub initrd : Option Resource
  pub dtb : Option Resource
  pub args_sig_file : Option Resource
  pub icon : Option Resource

-- A notification of the clients, or a call of set_default.
pub data Announcement : Type 0 where
  device_announced : ℕ → Announcement
  option_announced : BootOption → Announcement
  default_offered : BootOption → Announcement

-- The handler's queue, and the options and the flag `notified` of the device at an address.
pub record Discovery : Type 0 where
  pub unresolved_boot_options : List Candidate
  pub boot_options : ℕ → List Candidate
  pub notified : ℕ → Bool
  pub announcements : List Announcement

unfoldable pub resource_is_resolved : Option Resource → Bool
resource_is_resolved none = true
resource_is_resolved (some (resolved url)) = true
resource_is_resolved (some (unresolved device path)) = false

unfoldable pub boot_option_is_resolved : Candidate → Bool
boot_option_is_resolved opt =
    resource_is_resolved opt.boot_image
    && (resource_is_resolved opt.initrd
        && (resource_is_resolved opt.dtb
            && (resource_is_resolved opt.args_sig_file && resource_is_resolved opt.icon)))

-- `resolve` is the parser's function, with the devices that the handler has: the resource, and the
-- result. Without such a function the call goes through a null pointer.
unfoldable pub resource_resolve :
    (Resource → Resource) → Bool → Option Resource → Option (Option Resource × Bool)
resource_resolve resolve resolves none = some (none, true)
resource_resolve resolve resolves (some (resolved url)) = some (some (resolved url), true)
resource_resolve resolve resolves (some (unresolved device path)) =
    let res = some (resolve (unresolved device path)) in
    if resolves then some (res, resource_is_resolved res) else none

-- One operand of the conjunction: the next one is evaluated only when it is true.
abbrev pub and_resolve :
    Candidate
    → Option (Option Resource × Bool)
    → (Option Resource → Candidate)
    → (Candidate → Option (Candidate × Bool))
    → Option (Candidate × Bool)
and_resolve opt none put next = none
and_resolve opt (some (res, false)) put next = some (put res, false)
and_resolve opt (some (res, true)) put next = next (put res)

unfoldable pub resolve_icon : (Resource → Resource) → Candidate → Option (Candidate × Bool)
resolve_icon resolve opt =
    and_resolve opt (resource_resolve resolve opt.resolves opt.icon) (λ r. record opt { icon = r })
      (λ o. some (o, true))

unfoldable pub resolve_args_sig_file : (Resource → Resource) → Candidate → Option (Candidate × Bool)
resolve_args_sig_file resolve opt =
    and_resolve opt (resource_resolve resolve opt.resolves opt.args_sig_file)
      (λ r. record opt { args_sig_file = r }) (resolve_icon resolve)

unfoldable pub resolve_dtb : (Resource → Resource) → Candidate → Option (Candidate × Bool)
resolve_dtb resolve opt =
    and_resolve opt (resource_resolve resolve opt.resolves opt.dtb) (λ r. record opt { dtb = r })
      (resolve_args_sig_file resolve)

unfoldable pub resolve_initrd : (Resource → Resource) → Candidate → Option (Candidate × Bool)
resolve_initrd resolve opt =
    and_resolve opt (resource_resolve resolve opt.resolves opt.initrd)
      (λ r. record opt { initrd = r }) (resolve_dtb resolve)

unfoldable pub boot_option_resolve : (Resource → Resource) → Candidate → Option (Candidate × Bool)
boot_option_resolve resolve opt =
    and_resolve opt (resource_resolve resolve opt.resolves opt.boot_image)
      (λ r. record opt { boot_image = r }) (resolve_initrd resolve)

-- `assert(!text)`
abbrev pub assert_null : CStr → Option CStr
assert_null none = some none
assert_null (some text) = none

-- `res->url->full` of a resource that is there, in place of the null pointer `file`.
unfoldable pub final_file : Option Resource → CStr → Option CStr
final_file res (some file) = none
final_file none none = some none
final_file (some (resolved (some url))) none = some (some url.full)
final_file (some (resolved none)) none = none
final_file (some (unresolved device path)) none = none

-- The option with its final data, before the call of set_default.
unfoldable pub boot_option_finalise : Candidate → Option Candidate
boot_option_finalise opt = do
  boot_image_file ← final_file opt.boot_image opt.option.boot_image_file
  initrd_file ← final_file opt.initrd opt.option.initrd_file
  dtb_file ← final_file opt.dtb opt.option.dtb_file
  icon_file ← final_file opt.icon opt.option.icon_file
  args_sig_file ← final_file opt.args_sig_file opt.option.args_sig_file
  device_id ← assert_null opt.option.device_id
  some (record opt {
    option = record opt.option {
      boot_image_file = boot_image_file;
      initrd_file = initrd_file;
      dtb_file = dtb_file;
      icon_file = icon_file;
      args_sig_file = args_sig_file;
      device_id = opt.device_id;
    };
  })

-- The call of set_default for an option that is a default.
abbrev pub offered : BootOption → List Announcement
offered option = if option.is_default then default_offered option ∷ [] else []

unfoldable pub notify_boot_option : Candidate → Discovery → Discovery
notify_boot_option opt s = record s {
  notified = λ d. if d == opt.device then true else s.notified d;
  announcements =
      s.announcements
      ++ ((if s.notified opt.device then [] else device_announced opt.device ∷ [])
          ++ option_announced opt.option ∷ []);
}

-- list_add_tail to the device's options, boot_option_finalise and notify_boot_option.
unfoldable pub announce : Candidate → Discovery → Option Discovery
announce opt s = do
  final ← boot_option_finalise opt
  some (
      notify_boot_option final (record s {
        boot_options =
            λ d. if d == opt.device then s.boot_options d ++ final ∷ [] else s.boot_options d;
        announcements = s.announcements ++ offered final.option;
      }))

-- `!opt->boot_image || !opt->boot_image->url`; an unresolved resource has its parser's data there.
abbrev pub no_boot_image : Option Resource → Bool
no_boot_image none = true
no_boot_image (some (resolved none)) = true
no_boot_image (some (resolved (some url))) = false
no_boot_image (some (unresolved device path)) = false

-- The loop's body after an attempt to resolve the option.
unfoldable pub commit_resolved : Candidate × Bool → Discovery → Option Discovery
commit_resolved (opt, true) s = announce opt s
commit_resolved (opt, false) s =
    if opt.resolves
    then some (record s { unresolved_boot_options = opt ∷ s.unresolved_boot_options })
    else some s

unfoldable pub commit_option : (Resource → Resource) → Candidate → Discovery → Option Discovery
commit_option resolve opt s =
    if no_boot_image opt.boot_image
    then some s
    else (do r ← boot_option_resolve resolve opt; commit_resolved r s)

-- The loop of device_handler_discover_context_commit over the context's options.
unfoldable pub commit_options :
    (Resource → Resource) → List Candidate → Discovery → Option Discovery
commit_options resolve [] s = some s
commit_options resolve (opt ∷ opts) s = do
  s' ← commit_option resolve opt s
  commit_options resolve opts s'

-- The loop of process_boot_option_queue: the options that stay, and what it does of the rest.
unfoldable pub process_queue :
    (Resource → Resource) → List Candidate → Discovery → Option (List Candidate × Discovery)
process_queue resolve [] s = some ([], s)
process_queue resolve (opt ∷ opts) s = do
  r ← boot_option_resolve resolve opt
  s' ← (if r.1 then announce r.0 s else some s)
  rest ← process_queue resolve opts s'
  some ((if r.1 then rest.0 else r.0 ∷ rest.0), rest.1)

unfoldable pub process_boot_option_queue : (Resource → Resource) → Discovery → Option Discovery
process_boot_option_queue resolve s = do
  r ← process_queue resolve s.unresolved_boot_options s
  some (record r.1 { unresolved_boot_options = r.0 })
