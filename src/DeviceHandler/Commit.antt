-- ===== src/DeviceHandler/Commit.antt =====
-- What the queue of unresolved boot options keeps and announces.
use petitboot.Base.{◌≡◌, Option, some, List, All}
use petitboot.Resource.{Resource}
use petitboot.DeviceHandler.Queue.{Candidate, Discovery}
use petitboot.DeviceHandler.Resolution.{IsUsable, IsSound}
use petitboot.DeviceHandler.Outcome.{Announces, Settled, queued}
use petitboot.DeviceHandler.Announce.{Boxes}

-- Every option of a device was announced with its image, and every option of the queue has one,
-- and a parser that can resolve it.
abbrev pub IsDiscovery : Discovery → Type 0
IsDiscovery s = Boxes s × All IsUsable s.unresolved_boot_options

-- What the loop over the queue makes of the options.
abbrev Processed : List Candidate → Discovery → Option (List Candidate × Discovery) → Type 0
Processed cs s o =
    (left : List Candidate) × (finals : List Candidate) × (s' : Discovery) × (o ≡ some (left, s'))
    × All IsUsable left
    × Boxes s'
    × Settled cs finals left
    × Announces finals s s'

module _ (resolve : Resource → Resource) (sound : IsSound resolve) where
  -- What committing options makes of them.
  abbrev Committed : List Candidate → Discovery → Option Discovery → Type 0
  Committed cs s o =
      (s' : Discovery) × (finals : List Candidate) × (left : List Candidate) × (o ≡ some s')
      × IsDiscovery s'
      × Settled cs finals left
      × (s'.unresolved_boot_options ≡ queued s.unresolved_boot_options left)
      × Announces finals s s'
