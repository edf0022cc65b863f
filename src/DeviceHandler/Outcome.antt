-- ===== src/DeviceHandler/Outcome.antt =====
-- What may become of a parser's boot options: the clients are told of them, or they wait.
use mathlib.Core.List.{append_assoc, append-nil, map-append}
use petitboot.Base.{
  ℕ, ◌≡◌, refl, sym, ap, ◌∙◌, Bool, true, false, List, [], ◌∷◌, ◌++◌, ◌==◌, if◌then◌else◌, map,
}
use petitboot.Types.{BootOption}
use petitboot.DeviceHandler.Queue.{
  Candidate, Announcement, device_announced, option_announced, default_offered, Discovery,
  boot_option_is_resolved,
}
use petitboot.DeviceHandler.Resolution.{AreDone, IsSameOption}
use petitboot.DeviceHandler.Completed.{completed}

-- The options that the clients were told of, in order.
abbrev pub announced : List Announcement → List BootOption
announced [] = []
announced (device_announced d ∷ xs) = announced xs
announced (option_announced o ∷ xs) = o ∷ announced xs
announced (default_offered o ∷ xs) = announced xs

-- The options that set_default was called for, in order.
abbrev pub offers : List Announcement → List BootOption
offers [] = []
offers (device_announced d ∷ xs) = offers xs
offers (option_announced o ∷ xs) = offers xs
offers (default_offered o ∷ xs) = o ∷ offers xs

pub announced-append :
    (xs ys : List Announcement) → announced (xs ++ ys) ≡ announced xs ++ announced ys
announced-append [] ys = refl
announced-append (device_announced d ∷ xs) ys = announced-append xs ys
announced-append (option_announced o ∷ xs) ys = ap (o ∷◌) (announced-append xs ys)
announced-append (default_offered o ∷ xs) ys = announced-append xs ys

pub offers-append : (xs ys : List Announcement) → offers (xs ++ ys) ≡ offers xs ++ offers ys
offers-append [] ys = refl
offers-append (device_announced d ∷ xs) ys = offers-append xs ys
offers-append (option_announced o ∷ xs) ys = offers-append xs ys
offers-append (default_offered o ∷ xs) ys = ap (o ∷◌) (offers-append xs ys)

abbrev pub pick : (Candidate → Bool) → List Candidate → List Candidate
pick p [] = []
pick p (c ∷ cs) = if p c then c ∷ pick p cs else pick p cs

pick-cons :
    (p : Candidate → Bool) (c : Candidate) (cs : List Candidate)
    → pick p (c ∷ []) ++ pick p cs ≡ pick p (c ∷ cs)
pick-cons p c cs = either (p c)
  where
    either :
        (b : Bool)
        → (if b then c ∷ [] else []) ++ pick p cs ≡ (if b then c ∷ pick p cs else pick p cs)
    either true = refl
    either false = refl

abbrev pub option_of : Candidate → BootOption
option_of c = c.option

-- From s to s' the clients were told of these options, in this order; set_default was called for
-- those of them that are defaults; and each is behind the options of its device.
abbrev pub Announces : List Candidate → Discovery → Discovery → Type 0
Announces finals s s' =
    (announced s'.announcements ≡ announced s.announcements ++ map option_of finals)
    × (offers s'.announcements
        ≡ offers s.announcements ++ map option_of (pick (λ c. c.option.is_default) finals))
    × ((d : ℕ) → s'.boot_options d ≡ s.boot_options d ++ pick (λ c. d == c.device) finals)

pub Announces-none : (s : Discovery) → Announces [] s s
Announces-none s = (
  sym (append-nil (announced s.announcements)),
  sym (append-nil (offers s.announcements)),
  λ d. sym (append-nil (s.boot_options d)),
)

regroup {ℓ} :
    {A : Type ℓ} (before one rest now later whole : List A)
    → now ≡ before ++ one
    → later ≡ now ++ rest
    → one ++ rest ≡ whole
    → later ≡ before ++ whole
regroup before one rest now later whole e f g =
    f ∙ ap (λ x. x ++ rest) e ∙ append_assoc before one rest ∙ ap (before ++◌) g

pub Announces-cons :
    (c : Candidate) (cs : List Candidate) (s s₁ s' : Discovery)
    → Announces (c ∷ []) s s₁
    → Announces cs s₁ s'
    → Announces (c ∷ cs) s s'
Announces-cons c cs s s₁ s' (a, o, b) (a', o', b') = (
  regroup _ _ _ _ _ _ a a' refl,
  regroup _ _ _ _ _ _ o o' (
      sym (
        map-append option_of (pick (λ x. x.option.is_default) (c ∷ []))
          (pick (λ x. x.option.is_default) cs))
      ∙ ap (map option_of) (pick-cons (λ x. x.option.is_default) c cs)),
  λ d. regroup _ _ _ _ _ _ (b d) (b' d) (pick-cons (λ x. d == x.device) c cs),
)

-- Each option of the first list, in order, is in the second list with its final data, when all its
-- files are resolved, or in the third list, when one is not.
pub data Settled : List Candidate → List Candidate → List Candidate → Type 0 where
  settled : Settled [] [] []
  finished :
      {cs finals left : List Candidate} {c r f : Candidate}
      → IsSameOption c r
      → AreDone r
      → f ≡ completed r
      → Settled cs finals left
      → Settled (c ∷ cs) (f ∷ finals) left
  waiting :
      {cs finals left : List Candidate} {c r : Candidate}
      → IsSameOption c r
      → boot_option_is_resolved r ≡ false
      → Settled cs finals left
      → Settled (c ∷ cs) finals (r ∷ left)

-- A queue that options were put in front of, one by one.
abbrev pub queued : List Candidate → List Candidate → List Candidate
queued queue [] = queue
queued queue (c ∷ cs) = queued (c ∷ queue) cs
