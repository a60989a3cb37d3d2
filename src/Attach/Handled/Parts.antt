-- ===== src/Attach/Handled/Parts.antt =====
-- jobs/process_unassigned_chunks.go: what HandleTreasureChunks does to a batch, when all questions are
-- answered and when one is not.
use brokernode.Prelude.{Bool, List, not, ◌&&◌, ◌++◌}
use brokernode.Attach.Handled.{Handled, Tangle, handled}
use brokernode.Prelude.Int.{ℤ}
use brokernode.Prelude.Table.{keep, for_each}
use brokernode.Utils.Keys.{ChunkData}
use brokernode.Models.Session.{UploadSession}
use brokernode.Models.Session.Stores.{Stores, Works, move_chunk}

module _ (tg : Tangle) (w : Works) (u : UploadSession) (is_treasure : ℤ → Bool)
    (found : ChunkData → Bool) where
  abbrev pub plain : ChunkData → Bool
  plain c = not (is_treasure c.idx)

  abbrev pub new_treasure : ChunkData → Bool
  new_treasure c = is_treasure c.idx && not (found c)

  abbrev pub old_treasure : ChunkData → Bool
  old_treasure c = is_treasure c.idx && found c

  -- What the loop leaves when every question is answered.
  abbrev pub parts : List ChunkData → Handled → Handled
  parts cs h =
      handled (h.to_attach ++ keep plain cs) (h.treasures_to_attach ++ keep new_treasure cs)
        (for_each (move_chunk w u) (keep old_treasure cs) h.stores)
