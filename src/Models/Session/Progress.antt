-- ===== src/Models/Session/Progress.antt =====
-- models/upload_sessions.go and jobs/verify_data_maps.go: how far a session has attached its
-- chunks to the tangle and verified them. A write of the row is `write`, what pop's
-- ValidateAndUpdate makes of the database: its errors are logged, and the session goes on as it is.
pub mod Scan
pub mod Coverage
pub mod Invariant
pub mod Updates
use brokernode.Prelude.{
  ℕ, zero, suc, ◌+◌, Bool, true, false, ◌&&◌, not, List, [], ◌∷◌, length, if◌then◌else◌,
}
use brokernode.Prelude.Int.{ℤ, pos, negsuc, eqb_ℤ, ltb_ℤ, min_ℤ, max_ℤ}
use brokernode.Prelude.Word.{add64, mul64}
use brokernode.Prelude.Bytes.{is_empty, Bytes}
use brokernode.Utils.Keys.{ChunkData}
use brokernode.Models.Session.{
  UploadSession, session_type_alpha, session_type_beta, get_treasure_indexes,
}

-- `_, ok := idxMap[i]` of the map that the loop over the chunks fills.
pub has_idx : List ChunkData → ℤ → Bool
has_idx [] i = false
has_idx (c ∷ cs) i = if eqb_ℤ c.idx i then true else has_idx cs i

unfoldable pub member : List ℤ → ℤ → Bool
member [] i = false
member (t ∷ ts) i = if eqb_ℤ t i then true else member ts i

-- Whether the scan passes index i: a chunk has it, or it is a treasure's and the store of completed
-- chunks has a hash for it, `completed_hash` being GetSingleChunkData(CompletedDir, …).Hash.
pub covered : (ℤ → Bytes) → List ℤ → List ChunkData → ℤ → Bool
unfolding has_idx member
covered completed_hash treasures chunks i =
    if has_idx chunks i then true else member treasures i && not (is_empty (completed_hash i))

-- The loop of both updates, on fuel: `new` is the index after the last one that was passed.
pub scan : ℕ → (ℤ → Bool) → ℤ → ℤ → ℤ → ℤ → ℤ
scan zero passes step stop i new = new
scan (suc fuel) passes step stop i new =
    let next = scan fuel passes step stop (add64 i step) (add64 i step) in
    if eqb_ℤ i stop then new else if passes i then next else new

abbrev pub step_of : UploadSession → ℤ
step_of u = if eqb_ℤ u.type session_type_beta then negsuc 0 else pos 1

-- The loop, from one of the session's indexes. There are at most as many rounds as chunks.
pub advance : (ℤ → Bytes) → UploadSession → List ChunkData → ℤ → ℤ
unfolding scan covered
advance completed_hash u chunks start =
    scan (length chunks + 1) (covered completed_hash (get_treasure_indexes u).0 chunks) (step_of u)
      (add64 start (mul64 (pos (length chunks)) (step_of u))) start start

-- The indexes of a session are far below 2^53, so float64's minimum and maximum are exact.
module _ {Db : Type 0} (write : UploadSession → Db → Db) where
  -- UpdateIndexWithAttachedChunks
  unfoldable pub update_index_with_attached_chunks :
      (ℤ → Bytes) → UploadSession → List ChunkData → Db → UploadSession × Db
  update_index_with_attached_chunks completed_hash u chunks db =
      let u' = record u {
        next_idx_to_attach = advance completed_hash u chunks u.next_idx_to_attach;
      } in
      (u', write u' db)

  -- UpdateIndexWithVerifiedChunks
  unfoldable pub update_index_with_verified_chunks :
      (ℤ → Bytes) → UploadSession → List ChunkData → Db → UploadSession × Db
  update_index_with_verified_chunks completed_hash u chunks db =
      let new = advance completed_hash u chunks u.next_idx_to_verify in
      let u' = record u {
        next_idx_to_verify =
            if eqb_ℤ u.type session_type_alpha
            then min_ℤ new u.next_idx_to_attach
            else max_ℤ new u.next_idx_to_attach;
      } in
      (u', write u' db)

  -- The loop of DownGradeIndexesOnUnattachedChunks.
  pub lowest : ℤ → List ChunkData → ℤ
  lowest m [] = m
  lowest m (c ∷ cs) = lowest (min_ℤ c.idx m) cs

  pub highest : ℤ → List ChunkData → ℤ
  highest m [] = m
  highest m (c ∷ cs) = highest (max_ℤ c.idx m) cs

  -- DownGradeIndexesOnUnattachedChunks
  unfoldable pub down_grade_indexes : UploadSession → List ChunkData → Db → UploadSession × Db
  unfolding lowest highest
  down_grade_indexes u [] db = (u, db)
  down_grade_indexes u (c ∷ cs) db =
      let max_idx = highest c.idx (c ∷ cs) in
      let min_idx = lowest c.idx (c ∷ cs) in
      let alpha = record u {
        next_idx_to_attach = min_ℤ min_idx u.next_idx_to_attach;
        next_idx_to_verify = min_ℤ min_idx u.next_idx_to_verify;
      } in
      let beta = record u {
        next_idx_to_attach = max_ℤ max_idx u.next_idx_to_attach;
        next_idx_to_verify = max_ℤ max_idx u.next_idx_to_verify;
      } in
      let u' = if eqb_ℤ u.type session_type_alpha then alpha else beta in (u', write u' db)

  -- adjustIndexes, with the chunks that GetUnassignedChunksBySession(1) gave.
  unfoldable pub adjust_indexes : UploadSession → List ChunkData → Db → UploadSession × Db
  adjust_indexes u chunks db =
      let u' = record u {
        next_idx_to_attach = if eqb_ℤ u.type session_type_alpha then u.num_chunks else negsuc 0;
      } in
      let done : UploadSession × Db = elim chunks [ [] ↦ (u', write u' db) | c ∷ cs ↦ (u, db) ] in
      if eqb_ℤ u.next_idx_to_attach u.next_idx_to_verify then done else (u, db)
