-- ===== src/Models/MoveAll.antt =====
-- models/upload_sessions.go, MoveAllChunksToCompleted where the data maps are in badger: windows of keys,
-- from the stores in progress to the completed ones.
pub mod Windows
use brokernode.Store.Registry.Batches.Chunks.{message_dir, hash_dir}
use brokernode.Utils.Keys.{generate_bulk_keys}
use brokernode.Store.Registry.Batches.{
  batch_delete_from_unique_db, batch_set_to_unique_db, batch_get_from_unique_db,
}
use brokernode.Store.{Badger}
use brokernode.Prelude.Int.{negsuc, pos, ℤ}
use brokernode.Prelude.Bytes.{Bytes, codes}
use brokernode.Prelude.{
  ◌^◌, Bool, List, Option, [], false, if◌then◌else◌, leb, ltb, none, some, suc, true, zero, ℕ, ◌*◌,
  ◌+◌, ◌==◌, ◌∷◌,
}
use brokernode.Store.Registry.{DbId, Files, OpenStores}
use brokernode.Models.DataMaps.{max_badger_insertions, in_progress_dir}

abbrev pub completed_dir : Bytes
completed_dir = codes "complete"

-- CompletedDataMapsTimeToLive, in nanoseconds
abbrev pub completed_data_maps_time_to_live : ℕ
completed_data_maps_time_to_live = 21 * 24 * 3600 * 10 ^ 9

-- An index past the last one is the last one.
abbrev pub up_to : ℕ → ℕ → ℕ
up_to last i = if ltb last i then last else i

-- The loop on fuel, for a body that is given the first and the last index of a window: whether it had no
-- error, and the state; `none` where the fuel ends first.
abbrev pub after_window :
    {S : Type 0} → Bool × S → Bool → (S → Option (Bool × S)) → Option (Bool × S)
after_window (false, s) at_end rest = some (false, s)
after_window (true, s) true rest = some (true, s)
after_window (true, s) false rest = rest s

unfoldable pub window_loop :
    {S : Type 0} → (ℕ → ℕ → S → Bool × S) → ℕ → ℕ → ℕ → S → Option (Bool × S)
window_loop body last zero i s = none
window_loop body last (suc fuel) i s =
    let window =
      after_window (body i (up_to last (i + max_badger_insertions)) s) (i == last)
        (window_loop body last fuel (up_to last (i + max_badger_insertions))) in
    if leb i last then window else some (true, s)

module _ {World Db Txn : Type 0} (fs : Files World Db) (b : Badger World Db Txn)
    (genesis_hash : Bytes) where
  abbrev pub store_of : Bytes → Bytes → DbId
  store_of dir kind = (dir, genesis_hash ∷ kind ∷ [])

  -- The deletions behind the two writes; their errors are not looked at.
  unfoldable pub delete_moved : List Bytes → OpenStores World Db → Bool × OpenStores World Db
  delete_moved keys s =
      let (ok, s') =
        batch_delete_from_unique_db fs b (store_of in_progress_dir message_dir) keys s in
      let (ok', s'') =
        batch_delete_from_unique_db fs b (store_of in_progress_dir hash_dir) keys s' in
      (true, s'')

  abbrev set_both :
      List Bytes
      → List (Bytes × Bytes)
      → List (Bytes × Bytes)
      → OpenStores World Db
      → Bool × OpenStores World Db
  set_both keys messages hashes s =
      let ttl = completed_data_maps_time_to_live in
      let (ok, s') =
        batch_set_to_unique_db fs b (store_of completed_dir message_dir) messages ttl s in
      let (ok', s'') =
        batch_set_to_unique_db fs b (store_of completed_dir hash_dir) hashes ttl s' in
      let done = delete_moved keys s'' in
      if ok then if ok' then done else (false, s'') else (false, s')

  -- The body of the loop of moveAllChunksToCompletedBadger.
  unfoldable pub move_window : ℕ → ℕ → OpenStores World Db → Bool × OpenStores World Db
  unfolding delete_moved
  move_window i stop s =
      let keys = generate_bulk_keys genesis_hash (pos i) (pos stop) in
      let ((ok, messages), s') =
        batch_get_from_unique_db fs b (store_of in_progress_dir message_dir) keys s in
      let ((ok', hashes), s'') =
        batch_get_from_unique_db fs b (store_of in_progress_dir hash_dir) keys s' in
      let moved = set_both keys messages hashes s'' in
      if ok then if ok' then moved else (false, s'') else (false, s')

  -- moveAllChunksToCompletedBadger, with fuel for as many windows as there are chunks.
  unfoldable pub move_all_chunks_to_completed_badger :
      ℤ → OpenStores World Db → Option (Bool × OpenStores World Db)
  unfolding window_loop move_window
  move_all_chunks_to_completed_badger (negsuc n) s = some (true, s)
  move_all_chunks_to_completed_badger (pos zero) s = some (true, s)
  move_all_chunks_to_completed_badger (pos (suc last)) s =
      window_loop move_window last (suc last) 0 s
