-- ===== src/Sync/Steady/Frames.antt =====
-- States with the same chain pointer and signals.
use wallet.Prelude.{◌≡◌}
use wallet.Sync.Steady.Monad.{Steady}

-- The pointer and the signals are as they were.
abbrev pub Same : {Db : Type 0} → Steady Db → Steady Db → Type 0
Same s t = (t.prev_tip ≡ s.prev_tip) × (t.status ≡ s.status)
