-- ===== src/Models/Session/Selection/Phases.antt =====
-- models/upload_sessions.go: a session whose indexes are in order is in exactly one phase.
use brokernode.Prelude.{◌≡◌, ◌⊎◌, true, false, arith}
use brokernode.Models.Session.{UploadSession}
use brokernode.Models.Session.Progress.Invariant.{InOrder}
use brokernode.Models.Session.Selection.{is_ready, is_verifiable, is_completed}

-- Exactly one of the three conditions holds.
abbrev pub OnePhase : UploadSession → Type 0
OnePhase u =
    ((is_ready u ≡ true) × (is_verifiable u ≡ false) × (is_completed u ≡ false))
    ⊎ ((is_ready u ≡ false) × (is_verifiable u ≡ true) × (is_completed u ≡ false))
    ⊎ ((is_ready u ≡ false) × (is_verifiable u ≡ false) × (is_completed u ≡ true))

-- A session whose indexes are in order is wanted by exactly one of the three: it still has chunks
-- to attach, or it has attached all and not verified all, or it is completed.
pub InOrder-OnePhase : (u : UploadSession) → InOrder u → OnePhase u
unfolding is_ready is_verifiable is_completed
InOrder-OnePhase u h = ground (arith, h.order)
