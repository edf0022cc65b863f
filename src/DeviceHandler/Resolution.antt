-- ===== src/DeviceHandler/Resolution.antt =====
-- Attempts to resolve the files of a boot option.
use petitboot.Base.{◌≡◌, refl, ap, ◌∙◌, arith, Bool, true, false, Option, none, some, Bytes}
use petitboot.Types.{BootOption}
use petitboot.Resource.{PbUrl, Resource, resolved, unresolved}
use petitboot.DeviceHandler.Queue.{
  Candidate, resource_is_resolved, resource_resolve, and_resolve, resolve_icon,
  resolve_args_sig_file, resolve_dtb, resolve_initrd, boot_option_is_resolved, boot_option_resolve,
}

-- A resource that is resolved has a URL that was parsed.
abbrev pub IsClean : Option Resource → Type 0
IsClean none = Unit
IsClean (some (resolved none)) = ⊥
IsClean (some (resolved (some url))) = Unit
IsClean (some (unresolved device path)) = Unit

abbrev pub IsThere : Option Resource → Type 0
IsThere none = ⊥
IsThere (some res) = Unit

abbrev pub IsDone : Option Resource → Type 0
IsDone res = resource_is_resolved res ≡ true

-- The parser has set none of the final data.
abbrev pub IsFresh : BootOption → Type 0
IsFresh o =
    (o.boot_image_file ≡ none)
    × (o.initrd_file ≡ none)
    × (o.dtb_file ≡ none)
    × (o.icon_file ≡ none)
    × (o.args_sig_file ≡ none)
    × (o.device_id ≡ none)

-- An option with an image, of a parser that can resolve its resources.
abbrev pub IsUsable : Candidate → Type 0
IsUsable c =
    (c.resolves ≡ true)
    × IsFresh c.option
    × IsThere c.boot_image
    × IsClean c.boot_image
    × IsClean c.initrd
    × IsClean c.dtb
    × IsClean c.args_sig_file
    × IsClean c.icon

abbrev pub AreDone : Candidate → Type 0
AreDone c =
    IsDone c.boot_image × IsDone c.initrd × IsDone c.dtb × IsDone c.args_sig_file × IsDone c.icon

-- The option has the URL of its image, and the id of its device.
abbrev pub IsAnnounced : Candidate → Type 0
IsAnnounced c =
    (url : PbUrl) × (c.boot_image ≡ some (resolved (some url)))
    × (c.option.boot_image_file ≡ some url.full)
    × (c.option.device_id ≡ c.device_id)

-- A parser's function that resolves a resource to a URL, or leaves it.
abbrev pub IsSound : (Resource → Resource) → Type 0
IsSound resolve = (device path : Bytes) → IsClean (some (resolve (unresolved device path)))

-- The same option of the same device; the resources may differ.
abbrev pub IsSameOption : Candidate → Candidate → Type 0
IsSameOption c c' = (c'.option ≡ c.option) × (c'.device ≡ c.device) × (c'.device_id ≡ c.device_id)

-- The outcome of an attempt to resolve an option.
abbrev pub Attempted : Candidate → Option (Candidate × Bool) → Type 0
Attempted c o =
    (c' : Candidate) × (b : Bool) × (o ≡ some (c', b))
    × IsUsable c'
    × (b ≡ true → AreDone c')
    × (b ≡ false → boot_option_is_resolved c' ≡ false)
    × IsSameOption c c'

and_resolve-Attempted :
    (c : Candidate) (o : Option (Option Resource × Bool)) (put : Option Resource → Candidate)
    (next : Candidate → Option (Candidate × Bool)) (r : Option Resource) (b : Bool)
    → o ≡ some (r, b)
    → IsUsable (put r)
    → IsSameOption c (put r)
    → (b ≡ false → boot_option_is_resolved (put r) ≡ false)
    → (b ≡ true → Attempted c (next (put r)))
    → Attempted c (and_resolve c o put next)
and_resolve-Attempted c o put next r true e u same left h =
    let (c', b', ran, u', done, left', same') = h refl in
    (c', b', ap (λ x. and_resolve c x put next) e ∙ ran, u', done, left', same')
and_resolve-Attempted c o put next r false e u same left h =
    (put r, false, ap (λ x. and_resolve c x put next) e, u, (λ t. absurd cc), left, same)

-- A missing resource leaves the option unresolved.
missing_boot_image :
    (c : Candidate) → resource_is_resolved c.boot_image ≡ false → boot_option_is_resolved c ≡ false
unfolding boot_option_is_resolved
missing_boot_image c e = ground arith

missing_initrd :
    (c : Candidate) → resource_is_resolved c.initrd ≡ false → boot_option_is_resolved c ≡ false
unfolding boot_option_is_resolved
missing_initrd c e = ground arith

missing_dtb :
    (c : Candidate) → resource_is_resolved c.dtb ≡ false → boot_option_is_resolved c ≡ false
unfolding boot_option_is_resolved
missing_dtb c e = ground arith

missing_args_sig_file :
    (c : Candidate)
    → resource_is_resolved c.args_sig_file ≡ false
    → boot_option_is_resolved c ≡ false
unfolding boot_option_is_resolved
missing_args_sig_file c e = ground arith

missing_icon :
    (c : Candidate) → resource_is_resolved c.icon ≡ false → boot_option_is_resolved c ≡ false
unfolding boot_option_is_resolved
missing_icon c e = ground arith

module _ (resolve : Resource → Resource) (sound : IsSound resolve) where
  resolve_one :
      (resolves : Bool) (r : Option Resource)
      → resolves ≡ true
      → IsClean r
      → (r' : Option Resource) × (b : Bool) × (resource_resolve resolve resolves r ≡ some (r', b))
        × IsClean r'
        × (b ≡ true → IsDone r')
        × (b ≡ false → resource_is_resolved r' ≡ false)
        × (IsThere r → IsThere r')
  unfolding resource_resolve resource_is_resolved
  resolve_one resolves none can clean =
      (none, true, refl, tt, (λ t. refl), (λ t. absurd cc), λ t. t)
  resolve_one resolves (some (resolved none)) can clean = absurd clean
  resolve_one resolves (some (resolved (some url))) can clean =
      (some (resolved (some url)), true, refl, tt, (λ t. refl), (λ t. absurd cc), λ t. t)
  resolve_one resolves (some (unresolved device path)) can clean = (
    some (resolve (unresolved device path)),
    resource_is_resolved (some (resolve (unresolved device path))),
    rw can refl,
    sound device path,
    (λ t. t),
    (λ t. t),
    λ t. tt,
  )

  resolve_icon-Attempted :
      (c : Candidate)
      → IsUsable c
      → IsDone c.boot_image
      → IsDone c.initrd
      → IsDone c.dtb
      → IsDone c.args_sig_file
      → Attempted c (resolve_icon resolve c)
  unfolding resolve_icon
  resolve_icon-Attempted c (can, fresh, there, a, b, d, e, f) da db dd de =
      let (r, ok, ran, clean, done, missing, kept) = resolve_one c.resolves c.icon can f in
      let u : IsUsable (record c { icon = r }) = (can, fresh, there, a, b, d, e, clean) in
      and_resolve-Attempted c _ _ _ r ok ran u (refl, refl, refl)
        (λ t. missing_icon (record c { icon = r }) (missing t))
        (λ h. (
          record c { icon = r },
          true,
          refl,
          u,
          (λ t. (da, db, dd, de, done h)),
          (λ t. absurd cc),
          (refl, refl, refl),
        ))

  resolve_args_sig_file-Attempted :
      (c : Candidate)
      → IsUsable c
      → IsDone c.boot_image
      → IsDone c.initrd
      → IsDone c.dtb
      → Attempted c (resolve_args_sig_file resolve c)
  unfolding resolve_args_sig_file
  resolve_args_sig_file-Attempted c (can, fresh, there, a, b, d, e, f) da db dd =
      let (r, ok, ran, clean, done, missing, kept) = resolve_one c.resolves c.args_sig_file can e in
      let u : IsUsable (record c { args_sig_file = r }) = (can, fresh, there, a, b, d, clean, f) in
      and_resolve-Attempted c _ _ _ r ok ran u (refl, refl, refl)
        (λ t. missing_args_sig_file (record c { args_sig_file = r }) (missing t))
        (λ h. resolve_icon-Attempted (record c { args_sig_file = r }) u da db dd (done h))

  resolve_dtb-Attempted :
      (c : Candidate)
      → IsUsable c
      → IsDone c.boot_image
      → IsDone c.initrd
      → Attempted c (resolve_dtb resolve c)
  unfolding resolve_dtb
  resolve_dtb-Attempted c (can, fresh, there, a, b, d, e, f) da db =
      let (r, ok, ran, clean, done, missing, kept) = resolve_one c.resolves c.dtb can d in
      let u : IsUsable (record c { dtb = r }) = (can, fresh, there, a, b, clean, e, f) in
      and_resolve-Attempted c _ _ _ r ok ran u (refl, refl, refl)
        (λ t. missing_dtb (record c { dtb = r }) (missing t))
        (λ h. resolve_args_sig_file-Attempted (record c { dtb = r }) u da db (done h))

  resolve_initrd-Attempted :
      (c : Candidate) → IsUsable c → IsDone c.boot_image → Attempted c (resolve_initrd resolve c)
  unfolding resolve_initrd
  resolve_initrd-Attempted c (can, fresh, there, a, b, d, e, f) da =
      let (r, ok, ran, clean, done, missing, kept) = resolve_one c.resolves c.initrd can b in
      let u : IsUsable (record c { initrd = r }) = (can, fresh, there, a, clean, d, e, f) in
      and_resolve-Attempted c _ _ _ r ok ran u (refl, refl, refl)
        (λ t. missing_initrd (record c { initrd = r }) (missing t))
        (λ h. resolve_dtb-Attempted (record c { initrd = r }) u da (done h))

  pub boot_option_resolve-Attempted :
      (c : Candidate) → IsUsable c → Attempted c (boot_option_resolve resolve c)
  unfolding boot_option_resolve
  boot_option_resolve-Attempted c (can, fresh, there, a, b, d, e, f) =
      let (r, ok, ran, clean, done, missing, kept) = resolve_one c.resolves c.boot_image can a in
      let u : IsUsable (record c { boot_image = r }) =
        (can, fresh, kept there, clean, b, d, e, f) in
      and_resolve-Attempted c _ _ _ r ok ran u (refl, refl, refl)
        (λ t. missing_boot_image (record c { boot_image = r }) (missing t))
        (λ h. resolve_initrd-Attempted (record c { boot_image = r }) u (done h))
