-- ===== src/DeviceHandler/Announce.antt =====
-- What announcing one boot option does.
use mathlib.Core.List.{append-nil}
use petitboot.Base.Options.{◌>>=◌}
use petitboot.Base.{
  ℕ, ◌≡◌, refl, sym, ap, ◌∙◌, Bool, true, false, Option, some, List, [], ◌∷◌, ◌++◌, ◌==◌,
  if◌then◌else◌, All, map,
}
use petitboot.DeviceHandler.Queue.{
  Candidate, Announcement, device_announced, option_announced, default_offered, Discovery, offered,
  notify_boot_option, announce,
}
use petitboot.DeviceHandler.Resolution.{IsUsable, AreDone, IsAnnounced}
use petitboot.DeviceHandler.Completed.{
  completed, boot_option_finalise-completed, completed-IsAnnounced,
}
use petitboot.DeviceHandler.Outcome.{
  announced, offers, announced-append, offers-append, Announces, option_of,
}

-- The options of every device have been announced with their image.
abbrev pub Boxes : Discovery → Type 0
Boxes s = (d : ℕ) → All IsAnnounced (s.boot_options d)

All-append :
    {A : Type 0} (P : A → Type 0) (xs : List A) (x : A) → All P xs → P x → All P (xs ++ x ∷ [])
All-append P [] x h p = (p, tt)
All-append P (y ∷ xs) x (q, h) p = (q, All-append P xs x h p)

-- A state with one more option announced, and the same queue.
abbrev pub Announced : Candidate → Discovery → Option Discovery → Type 0
Announced f s o =
    (s' : Discovery) × (o ≡ some s')
    × Boxes s'
    × (s'.unresolved_boot_options ≡ s.unresolved_boot_options)
    × Announces (f ∷ []) s s'

module _ (f : Candidate) (s : Discovery) where
  abbrev boxed : Discovery
  boxed = record s {
    boot_options = λ d. if d == f.device then s.boot_options d ++ f ∷ [] else s.boot_options d;
    announcements = s.announcements ++ offered f.option;
  }

  boxed-Announces : Announces (f ∷ []) s (notify_boot_option f boxed)
  unfolding notify_boot_option
  boxed-Announces = (
    told (s.notified f.device) f.option.is_default,
    asked (s.notified f.device) f.option.is_default,
    λ d. behind (d == f.device) (s.boot_options d),
  )
    where
      notices : Bool → Bool → List Announcement
      notices b d =
          (s.announcements ++ (if d then default_offered f.option ∷ [] else []))
          ++ ((if b then [] else device_announced f.device ∷ []) ++ option_announced f.option ∷ [])

      short :
          (b d : Bool)
          → (announced s.announcements
                ++ announced (if d then default_offered f.option ∷ [] else []))
              ++ announced (
                  (if b then [] else device_announced f.device ∷ [])
                  ++ option_announced f.option ∷ [])
            ≡ announced s.announcements ++ f.option ∷ []
      short true true = simp append-nil
      short true false = simp append-nil
      short false true = simp append-nil
      short false false = simp append-nil

      told : (b d : Bool) → announced (notices b d) ≡ announced s.announcements ++ f.option ∷ []
      told b d =
          announced-append (s.announcements ++ (if d then default_offered f.option ∷ [] else [])) _
          ∙ ap
              (λ xs.
                xs
                ++ announced (
                    (if b then [] else device_announced f.device ∷ [])
                    ++ option_announced f.option ∷ []))
              (announced-append s.announcements _)
          ∙ short b d

      brief :
          (b d : Bool)
          → (offers s.announcements ++ offers (if d then default_offered f.option ∷ [] else []))
              ++ offers (
                  (if b then [] else device_announced f.device ∷ [])
                  ++ option_announced f.option ∷ [])
            ≡ offers s.announcements ++ map option_of (if d then f ∷ [] else [])
      brief true true = simp append-nil
      brief true false = simp append-nil
      brief false true = simp append-nil
      brief false false = simp append-nil

      asked :
          (b d : Bool)
          → offers (notices b d)
            ≡ offers s.announcements ++ map option_of (if d then f ∷ [] else [])
      asked b d =
          offers-append (s.announcements ++ (if d then default_offered f.option ∷ [] else [])) _
          ∙ ap
              (λ xs.
                xs
                ++ offers (
                    (if b then [] else device_announced f.device ∷ [])
                    ++ option_announced f.option ∷ []))
              (offers-append s.announcements _)
          ∙ brief b d

      behind :
          (b : Bool) (cs : List Candidate)
          → (if b then cs ++ f ∷ [] else cs) ≡ cs ++ (if b then f ∷ [] else [])
      behind true cs = refl
      behind false cs = sym (append-nil cs)

pub announce-Announced :
    (c : Candidate) (s : Discovery)
    → IsUsable c
    → AreDone c
    → Boxes s
    → Announced (completed c) s (announce c s)
unfolding announce notify_boot_option
announce-Announced c s u done boxes =
    let f = completed c in
    (
      notify_boot_option f (boxed f s),
      ap finish (boot_option_finalise-completed c u done),
      (λ d. put (d == c.device) (s.boot_options d) (boxes d)),
      refl,
      boxed-Announces f s,
    )
  where
    finish : Option Candidate → Option Discovery
    finish r = do
      f ← r
      some (
          notify_boot_option f (record s {
            boot_options =
                λ d. if d == c.device then s.boot_options d ++ f ∷ [] else s.boot_options d;
            announcements = s.announcements ++ offered f.option;
          }))

    put :
        (b : Bool) (cs : List Candidate)
        → All IsAnnounced cs
        → All IsAnnounced (if b then cs ++ completed c ∷ [] else cs)
    put true cs h = All-append IsAnnounced cs (completed c) h (completed-IsAnnounced c u done)
    put false cs h = h
