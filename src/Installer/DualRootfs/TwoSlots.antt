-- ===== src/Installer/DualRootfs/TwoSlots.antt =====
-- What installer/dual_rootfs_device.go promises: two slots, the one to boot from next, and whether an
-- update waits to be committed.
use ota_pulse.Prelude.{ℕ, Bool, true, false, not, List, [], ◌∷◌, ◌==◌, if◌then◌else◌}

-- The numbers of the partitions.
pub record TwoSlots : Type 0 where
  pub running : ℕ
  pub other : ℕ
  pub target : ℕ
  pub pending : Bool

-- The calls of an update; true in a result is an error.
pub data Request : Type 0 where
  install commit roll_back verify verify_rollback : Request

-- An update that was not booted goes back to the slot that runs, one that was to the other.
abbrev previous : TwoSlots → ℕ
previous s = if s.target == s.running then s.other else s.running

unfoldable pub specified : Request → TwoSlots → Bool × TwoSlots
specified Request.install s = (false, record s { target = s.other; pending = true })
specified Request.commit s = (not s.pending, record s { pending = false })
specified Request.roll_back s =
    (false, if s.pending then record s { target = previous s; pending = false } else s)
specified Request.verify s = (not s.pending, s)
specified Request.verify_rollback s = (s.pending, s)

unfoldable pub specified_run : List Request → TwoSlots → List Bool × TwoSlots
specified_run [] s = ([], s)
specified_run (q ∷ qs) s =
    let (failed, s') = specified q s in
    let (rest, s'') = specified_run qs s' in (failed ∷ rest, s'')
