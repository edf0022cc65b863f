-- ===== src/Boot/Reports.antt =====
-- What boot reports, and what its task tells.
use petitboot.Base.{
  ℕ, ◌≡◌, refl, sym, Bool, true, false, ◌||◌, Option, none, some, List, [], ◌∷◌, if◌then◌else◌, ◌⊎◌,
  inl, inr, Bool-cases, arith, ◌∙◌, ap,
}
use petitboot.Talloc.{CStr}
use petitboot.Types.{BootCommand, status_error}
use petitboot.DeviceHandler.State.{BootRun, reports_error}
use petitboot.Boot.{
  LoadStatus, load_ok, load_error, load_async, load_cancelled, World, OptionUrls, BootResource,
  no_boot, named, reverse_onto, file_resources, signature_resources, choose_url, start_until,
  start_each, load_pending, any_pending, check_load, check_loads, boot_process, start_loads,
  start_signed, boot_named, boot_image, boot,
}

-- A task, or an error.
abbrev pub Answered : BootRun → Type 0
Answered run = ((task : ℕ) × (run.task ≡ some task)) ⊎ (reports_error run.reports ≡ true)

start_each-errors :
    (w : World) (rs : List BootResource)
    → (start_each w rs ≡ []) ⊎ ((types : List ℕ) × (start_each w rs ≡ status_error ∷ types))
unfolding start_each
start_each-errors w [] = inl refl
start_each-errors w (r ∷ rs) =
    elim (w.load_url_async r.name r.url)
      as (λ x.
        ((elim x [ none ↦ status_error ∷ start_each w rs | some s ↦ start_each w rs ]) ≡ [])
        ⊎ ((types : List ℕ) × ((elim x [
          | none ↦ status_error ∷ start_each w rs
          | some s ↦ start_each w rs
        ])
              ≡ status_error ∷ types))) [
                | none ↦ inr (start_each w rs, refl)
                | some s ↦ start_each-errors w rs
              ]

start_loads-Answered :
    (w : World) (files signatures : List BootResource) → Answered (start_loads w files signatures)
unfolding start_loads reports_error
start_loads-Answered w files signatures = elim (start_each-errors w signatures) [
  | inl quiet ↦ elim (Bool-cases (start_until w files)) [
    | inl failed ↦ inr (rw (start_loads, quiet, failed) refl)
    | inr fine ↦ inl (w.task, rw (start_loads, quiet, fine) refl)
  ]
  | inr loud ↦
      let (types, e) = loud in
      elim (Bool-cases (start_until w files)) [
        | inl failed ↦ inr (rw (start_loads, e, failed) refl)
        | inr fine ↦ inr (rw (start_loads, e, fine) refl)
      ]
]

no_boot-Answered : Answered no_boot
unfolding reports_error
no_boot-Answered = inr refl

if-Answered : (b : Bool) (x y : BootRun) → Answered x → Answered y → Answered (if b then x else y)
if-Answered true x y a a' = a
if-Answered false x y a a' = a'

start_signed-Answered :
    (w : World) (file url : CStr) (files : List BootResource)
    (signatures : CStr → List BootResource)
    → Answered (start_signed w file url files signatures)
unfolding start_signed
start_signed-Answered w (some file) url files signatures =
    start_loads-Answered w files (signatures (w.pb_url_parse file))
start_signed-Answered w none (some url) files signatures =
    start_loads-Answered w files (signatures (some url))
start_signed-Answered w none none files signatures =
    if-Answered (w.verify_signature || w.decrypt_files) no_boot
      (start_loads w files (signatures none)) no_boot-Answered
      (start_loads-Answered w files (signatures none))

boot_image-Answered :
    (w : World) (opt : OptionUrls) (cmd : Option BootCommand) (image : CStr)
    → Answered (boot_image w opt cmd image)
unfolding boot_image
boot_image-Answered w opt cmd image =
    let initrd = choose_url w (named (λ c. c.initrd_file) cmd) opt.initrd in
    let dtb = choose_url w (named (λ c. c.dtb_file) cmd) opt.dtb in
    start_signed-Answered w (named (λ c. c.args_sig_file) cmd) opt.args_sig
      (file_resources image initrd dtb) (signature_resources w image initrd dtb)

boot_named-Answered :
    (w : World) (opt : OptionUrls) (cmd : Option BootCommand) (file url : CStr)
    → Answered (boot_named w opt cmd file url)
unfolding boot_named
boot_named-Answered w opt cmd (some file) url = boot_image-Answered w opt cmd (w.pb_url_parse file)
boot_named-Answered w opt cmd none (some url) = boot_image-Answered w opt cmd (some url)
boot_named-Answered w opt cmd none none = no_boot-Answered

-- Whatever the option and the command are and whatever the downloads and the security mode do,
-- boot returns a task or has reported an error before it returns.
pub boot-Answered :
    (w : World) (opt : OptionUrls) (cmd : Option BootCommand) → Answered (boot w opt cmd)
unfolding boot
boot-Answered w opt cmd =
    boot_named-Answered w opt cmd (named (λ c. c.boot_image_file) cmd) opt.image

next-nonempty :
    (xs : List BootResource) (y : BootResource) (ys : List BootResource)
    → (z : BootResource) × (zs : List BootResource) × (reverse_onto xs (y ∷ ys) ≡ z ∷ zs)
next-nonempty [] y ys = (y, ys, refl)
next-nonempty (x ∷ xs) y ys = next-nonempty xs x (y ∷ ys)

boot_process-error :
    (w : World) (r : BootResource) (rs : List BootResource)
    → any_pending w (r ∷ rs) ≡ false
    → reports_error (boot_process w (r ∷ rs)) ≡ true
unfolding boot_process check_loads check_load reports_error any_pending load_pending
boot_process-error w r rs idle = head (w.load_url_async r.name r.url) refl
  where
    head :
        (l : Option LoadStatus)
        → w.load_url_async r.name r.url ≡ l
        → reports_error (boot_process w (r ∷ rs)) ≡ true
    head none e = ground arith
    head (some load_ok) e = ground arith
    head (some load_error) e = ground arith
    head (some load_async) e = ground arith
    head (some load_cancelled) e = ground arith

-- The resources of a task, the latest first, are not none when there is a file.
resources-nonempty :
    (signatures fs : List BootResource) (f : BootResource)
    → (z : BootResource) × (zs : List BootResource) × (reverse_onto signatures
          (reverse_onto (f ∷ fs) [])
        ≡ z ∷ zs)
resources-nonempty signatures fs f =
    let (y, ys, e) = next-nonempty fs f [] in
    let (z, zs, e') = next-nonempty signatures y ys in (z, zs, ap (reverse_onto signatures) e ∙ e')

idle-error :
    (w : World) (rs : List BootResource) (z : BootResource) (zs : List BootResource)
    → rs ≡ z ∷ zs
    → any_pending w rs ≡ false
    → reports_error (boot_process w rs) ≡ true
idle-error w rs z zs e idle =
    ap (λ x. reports_error (boot_process w x)) e
    ∙ boot_process-error w z zs (sym (ap (any_pending w) e) ∙ idle)

-- When every download of the files and of the signatures starts and none is pending any more, be
-- they failed or complete, boot reports an error before it returns, although it returns a task.
pub start_loads-error :
    (w : World) (f : BootResource) (fs signatures : List BootResource)
    → start_until w (f ∷ fs) ≡ false
    → start_each w signatures ≡ []
    → any_pending w (reverse_onto signatures (reverse_onto (f ∷ fs) [])) ≡ false
    → ((start_loads w (f ∷ fs) signatures).task ≡ some w.task)
      × (reports_error (start_loads w (f ∷ fs) signatures).reports ≡ true)
unfolding start_loads reports_error
start_loads-error w f fs signatures fine quiet idle =
    let (z, zs, e) = resources-nonempty signatures fs f in
    let rs = reverse_onto signatures (reverse_onto (f ∷ fs) []) in
    let shown = idle-error w rs z zs e idle in
    (rw (start_loads, quiet, fine) refl, rw (start_loads, quiet, fine) shown)
