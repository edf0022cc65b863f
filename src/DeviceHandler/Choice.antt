-- ===== src/DeviceHandler/Choice.antt =====
-- Which option set_default leaves as the default after any sequence of offers.
use petitboot.Base.{
  ℕ, ◌<◌, ◌≡◌, refl, ap, ◌∙◌, Bool, true, false, Option, none, some, List, [], ◌∷◌, ltb,
  if◌then◌else◌, Bool-cases, ltb-lt, inl, inr, arith,
}
use petitboot.Types.{Config}
use petitboot.DeviceHandler.State.{DiscoverBootOption, DeviceHandler, BootRun}
use petitboot.DeviceHandler.Priority.{priority_disabled, default_option_priority}
use petitboot.DeviceHandler.Timer.{register_timeout, default_timeout}
use petitboot.DeviceHandler.Steps.{
  Option-cases, positive, default_timeout-pending, default_timeout-counting, set_default-out,
  set_default-taken, take_default-first,
}
use petitboot.DeviceHandler.Default.{first_default, take_default, set_default}

-- set_default for one option after the other.
unfoldable pub offer_all :
    Config → BootRun → List DiscoverBootOption → DeviceHandler → DeviceHandler
offer_all config run [] h = h
offer_all config run (o ∷ os) h = offer_all config run os (set_default config run o h)

-- An option that may be booted at all.
abbrev pub allowed : (DiscoverBootOption → ℕ) → DiscoverBootOption → Option DiscoverBootOption
allowed p o = if ltb (p o) priority_disabled then some o else none

-- The first of the two, unless the second has a smaller number.
abbrev pub better :
    (DiscoverBootOption → ℕ) → DiscoverBootOption → Option DiscoverBootOption → DiscoverBootOption
better p d none = d
better p d (some b) = if ltb (p b) (p d) then b else d

-- The first option with the smallest number below `priority_disabled`.
unfoldable pub least :
    (DiscoverBootOption → ℕ) → List DiscoverBootOption → Option DiscoverBootOption
least p [] = none
least p (o ∷ os) = elim (allowed p o) [
  | none ↦ least p os
  | some d ↦ some (better p d (least p os))
]

-- What the choice of the next default depends on.
abbrev Ready : Config → (DiscoverBootOption → ℕ) → DiscoverBootOption → DeviceHandler → Type 0
Ready config p d h =
    (h.autoboot_enabled ≡ true)
    × (h.default_boot_option ≡ some d)
    × (h.default_boot_option_priority ≡ p d)
    × (p d < priority_disabled)
    × ((o : DiscoverBootOption) → default_option_priority config h o ≡ p o)

take_default-Ready :
    (config : Config) (run : BootRun) (p : DiscoverBootOption → ℕ) (o d : DiscoverBootOption)
    (h : DeviceHandler)
    → Ready config p d h
    → p o < priority_disabled
    → Ready config p (if ltb (p o) (p d) then o else d) (take_default config run o (p o) h)
unfolding take_default default_option_priority
take_default-Ready config run p o d h (e, dd, pp, lt, ps) le =
    rw (dd, pp)
      (elim (Bool-cases (ltb (p o) (p d))) [
        | inl beats ↦ rw beats (e, refl, refl, le, ps)
        | inr keeps ↦ rw keeps (e, refl, refl, lt, ps)
      ])

associated :
    (p : DiscoverBootOption → ℕ) (d o : DiscoverBootOption) (b : Option DiscoverBootOption)
    → better p (if ltb (p o) (p d) then o else d) b ≡ better p d (some (better p o b))
associated p d o none = refl
associated p d o (some b) = ground arith

default_timeout-Ready :
    (config : Config) (run : BootRun) (p : DiscoverBootOption → ℕ) (d : DiscoverBootOption)
    (h : DeviceHandler)
    → 0 < h.sec_to_boot
    → Ready config p d h
    → Ready config p d (default_timeout run h)
unfolding register_timeout default_option_priority
default_timeout-Ready config run p d h pos (e, dd, pp, lt, ps) =
    elim (Option-cases h.pending_boot) [
      | inl free ↦
          let (n, sec) = positive h.sec_to_boot pos in
          rw (default_timeout-counting run h d n dd free sec) (e, dd, pp, lt, ps)
      | inr busy ↦
          let (task, some_task) = busy in
          rw (default_timeout-pending run h d task dd some_task) (e, dd, pp, lt, ps)
    ]

set_default-Ready :
    (config : Config) (run : BootRun) (p : DiscoverBootOption → ℕ) (o d : DiscoverBootOption)
    (h : DeviceHandler)
    → Ready config p d h
    → Ready config p (better p d (allowed p o)) (set_default config run o h)
set_default-Ready config run p o d h (e, dd, pp, lt, ps) =
    elim (Bool-cases (ltb (p o) priority_disabled)) [
      | inl inside ↦
          rw (inside, set_default-taken config run o h e (rw (ps o) (ground arith)), ps o)
            (take_default-Ready config run p o d h (e, dd, pp, lt, ps) (ground arith))
      | inr outside ↦
          rw (outside, set_default-out config run o h (rw (ps o) (ground arith)))
            (e, dd, pp, lt, ps)
    ]

offered-after :
    (config : Config) (run : BootRun) (p : DiscoverBootOption → ℕ) (os : List DiscoverBootOption)
    (d : DiscoverBootOption) (h : DeviceHandler)
    → Ready config p d h
    → (offer_all config run os h).default_boot_option ≡ some (better p d (least p os))
unfolding offer_all least
offered-after config run p [] d h (e, dd, pp, lt, ps) = dd
offered-after config run p (o ∷ os) d h r =
    let rest =
      offered-after config run p os (better p d (allowed p o)) (set_default config run o h)
        (set_default-Ready config run p o d h r) in
    rest ∙ ap some (join (ltb (p o) priority_disabled))
  where
    join :
        (b : Bool)
        → better p (better p d (if b then some o else none)) (least p os)
          ≡ better p d (elim (if b then some o else none) [
            | none ↦ least p os
            | some x ↦ some (better p x (least p os))
          ])
    join true = associated p d o (least p os)
    join false = refl

least-allowed :
    (p : DiscoverBootOption → ℕ) (o : DiscoverBootOption) (os : List DiscoverBootOption)
    → ltb (p o) priority_disabled ≡ true
    → least p (o ∷ os) ≡ some (better p o (least p os))
unfolding least
least-allowed p o os e = rw (least, e) refl

least-disabled :
    (p : DiscoverBootOption → ℕ) (o : DiscoverBootOption) (os : List DiscoverBootOption)
    → ltb (p o) priority_disabled ≡ false
    → least p (o ∷ os) ≡ least p os
unfolding least
least-disabled p o os e = rw (least, e) refl

first_default-timeout :
    (config : Config) (o : DiscoverBootOption) (prio : ℕ) (h : DeviceHandler)
    → 0 < config.autoboot_timeout_sec
    → 0 < (first_default config o prio h).sec_to_boot
unfolding first_default
first_default-timeout config o prio h pos = pos

first_default-Ready :
    (config : Config) (o : DiscoverBootOption) (h : DeviceHandler)
    → h.autoboot_enabled ≡ true
    → default_option_priority config h o < priority_disabled
    → Ready config
        (default_option_priority config h)
        o
        (first_default config o (default_option_priority config h o) h)
unfolding first_default default_option_priority
first_default-Ready config o h e lt = (e, refl, refl, lt, λ x. refl)

-- Whatever boot options are offered to set_default while autoboot is enabled, there is no default
-- yet and the configured timeout is not 0, the default is afterwards the first of the options
-- with the smallest priority number below DEFAULT_PRIORITY_DISABLED, and none when every option
-- is disabled.
pub offer_all-least :
    (config : Config) (run : BootRun) (os : List DiscoverBootOption) (h : DeviceHandler)
    → h.autoboot_enabled ≡ true
    → h.default_boot_option ≡ none
    → 0 < config.autoboot_timeout_sec
    → (offer_all config run os h).default_boot_option ≡ least (default_option_priority config h) os
unfolding offer_all least
offer_all-least config run [] h e n pos = n
offer_all-least config run (o ∷ os) h e n pos =
    let p = default_option_priority config h in
    elim (Bool-cases (ltb (p o) priority_disabled)) [
      | inl inside ↦
          rw
            (
              offer_all,
              set_default-taken config run o h e (ground arith),
              take_default-first config run o (p o) h n,
              least-allowed p o os inside,
            )
            (offered-after config run p os o (default_timeout run (first_default config o (p o) h))
              (default_timeout-Ready config run p o (first_default config o (p o) h)
                (first_default-timeout config o (p o) h pos)
                (first_default-Ready config o h e (ltb-lt (p o) priority_disabled inside))))
      | inr outside ↦
          rw
            (
              offer_all,
              set_default-out config run o h (ground arith),
              least-disabled p o os outside,
            )
            (offer_all-least config run os h e n pos)
    ]
