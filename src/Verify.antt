-- ===== src/Verify.antt =====
-- jobs/verify_data_maps.go: the chunks of a session that are looked for on the tangle again.
pub mod Ends
pub mod Kept
mod Tests
use brokernode.Prelude.Slices.{slice_end}
use brokernode.Prelude.{
  Bool, List, Option, [], if◌then◌else◌, leb, ltb, none, some, suc, zero, ℕ, ◌&&◌, ◌++◌, ◌+◌, ◌-◌,
  ◌||◌, length, take, drop,
}
use brokernode.Prelude.Int.{ℤ, pos, negsuc, eqb_ℤ}
use brokernode.Prelude.Word.{add64}
use brokernode.Prelude.Bytes.{Bytes}
use brokernode.Utils.Keys.{ChunkData, generate_bulk_keys}
use brokernode.Models.Session.{UploadSession, session_type_alpha, get_treasure_indexes}
use brokernode.Models.Session.Progress.{member, down_grade_indexes, adjust_indexes}
use brokernode.Models.Session.Stores.{move_chunks_to_completed}
use brokernode.Iota.{FilteredChunk, max_number_of_address_per_find_transaction_request}
use brokernode.Attach.{split, insert_treasure_chunks}
use brokernode.Attach.Run.{Setting, Outcome, verified_by}

-- `fetch` is GetMultiChunkDataFromAnyDB, `none` an error, which it never gives. The loop of getChunksToVerify, on fuel: `none`
-- where it still runs. An error goes on to the next round without the step of i.
module _ (fetch : List Bytes → Option (List ChunkData)) where
  abbrev pub fetched :
      Option (List ChunkData)
      → Option (List ChunkData)
      → Option (List ChunkData)
      → Option (List ChunkData)
  fetched none again rest = again
  fetched (some cs) again none = none
  fetched (some cs) again (some ds) = some (cs ++ ds)

  unfoldable pub keys_loop : ℕ → List Bytes → ℕ → Option (List ChunkData)
  keys_loop zero keys i = none
  keys_loop (suc fuel) keys i =
      let end = slice_end max_number_of_address_per_find_transaction_request (length keys) i in
      let size = max_number_of_address_per_find_transaction_request in
      let again = keys_loop fuel keys i in
      let more = keys_loop fuel keys (i + size) in
      let rest = if ltb (i + size) (length keys) then more else some [] in
      if leb end i then some [] else fetched (fetch (take (end - i) (drop i keys))) again rest

  -- getChunksToVerify
  unfoldable pub get_chunks_to_verify : ℕ → UploadSession → Option (List ChunkData)
  unfolding keys_loop
  get_chunks_to_verify fuel u =
      let offset = if eqb_ℤ u.type session_type_alpha then negsuc 0 else pos 1 in
      keys_loop fuel
        (generate_bulk_keys u.genesis_hash u.next_idx_to_verify (add64 u.next_idx_to_attach offset))
        0

module _ {Db : Type 0} (write : UploadSession → Db → Db) (sv : Setting) where
  abbrev pub down_graded_by : List ChunkData → Outcome Db → Outcome Db
  down_graded_by chunks o =
      let (u, db) = down_grade_indexes write o.session chunks o.db in
      record o { session = u; db = db }

  abbrev pub is_treasure : UploadSession → ChunkData → Bool
  is_treasure u c = member (get_treasure_indexes u).0 c.idx

  -- The treasures that are on the tangle, whatever their message, are completed.
  abbrev pub completed : FilteredChunk → List ChunkData → Outcome Db → Outcome Db
  completed f treasures o =
      let moved = record o {
        stores = move_chunks_to_completed sv.works o.session treasures o.stores;
      } in
      if (ltb 0 (length f.does_not_match_tangle) || ltb 0 (length f.matches_tangle))
        && ltb 0 (length treasures)
      then moved
      else o

  abbrev pub count_verified :
      FilteredChunk → List ChunkData → List ChunkData → Outcome Db → Outcome Db
  count_verified f matching treasures o =
      if ltb 0 (length f.matches_tangle)
      then verified_by write sv [] (insert_treasure_chunks matching treasures o.session) o
      else o

  -- CheckChunks
  unfoldable pub check_chunks : List ChunkData → Outcome Db → Outcome Db
  check_chunks chunks o =
      let f = sv.verify chunks in
      let (treasures, differing) = split (is_treasure o.session) f.does_not_match_tangle in
      let (found, matching) = split (is_treasure o.session) f.matches_tangle in
      let o1 = completed f (treasures ++ found) o in
      let o2 = down_graded_by f.not_attached (down_graded_by differing o1) in
      count_verified f matching (treasures ++ found) o2

  -- The loop of checkSessionChunks, on fuel, every round of which takes a thousand chunks or what is left:
  -- `none` where it still runs.
  unfoldable pub check_loop : ℕ → List ChunkData → ℕ → Outcome Db → Option (Outcome Db)
  unfolding check_chunks
  check_loop zero chunks i o = none
  check_loop (suc fuel) chunks i o =
      let end = slice_end max_number_of_address_per_find_transaction_request (length chunks) i in
      let size = max_number_of_address_per_find_transaction_request in
      let o' = check_chunks (take (end - i) (drop i chunks)) o in
      let rest = check_loop fuel chunks (i + size) o' in
      let next = if ltb (i + size) (length chunks) then rest else some o' in
      if leb end i then some o else next

  abbrev pub adjusted_by : List ChunkData → Outcome Db → Outcome Db
  adjusted_by unassigned o =
      let (u, db) = adjust_indexes write o.session unassigned o.db in
      record o { session = u; db = db }

  -- checkSessionChunks, with the chunks that GetUnassignedChunksBySession(1) gives, and with those of
  -- getChunksToVerify where it ends: `none` where one of the two loops still runs.
  abbrev pub check_fetched : Option (List ChunkData) → Outcome Db → Option (Outcome Db)
  check_fetched none o = none
  check_fetched (some chunks) o = check_loop (length chunks + 1) chunks 0 o

  unfoldable pub check_session_chunks :
      (List Bytes → Option (List ChunkData)) → ℕ → List ChunkData → Outcome Db → Option (Outcome Db)
  unfolding check_loop get_chunks_to_verify
  check_session_chunks fetch fuel unassigned o =
      let o' = adjusted_by unassigned o in
      let checked = check_fetched (get_chunks_to_verify fetch fuel o'.session) o' in
      if eqb_ℤ o'.session.next_idx_to_attach o'.session.next_idx_to_verify then some o' else checked
