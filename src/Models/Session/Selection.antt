-- ===== src/Models/Session/Selection.antt =====
-- models/upload_sessions.go: which sessions the jobs work on, and which of their chunks.
-- `select` is the database: the rows that a SELECT with the given condition answers, in the order
-- of the query, or `none` for an error. Errors are logged.
pub mod Phases
pub mod Chunks
use brokernode.Prelude.{
  ℕ, ◌≡◌, Bool, true, false, ◌&&◌, ◌||◌, not, Option, none, some, List, [], ◌∷◌, if◌then◌else◌, leb,
  All,
}
use brokernode.Prelude.Int.{ℤ, pos, negsuc, ◌-ℤ◌, eqb_ℤ, ltb_ℤ}
use brokernode.Prelude.Word.{add64, wrap64}
use brokernode.Prelude.Bytes.{Bytes}
use brokernode.Prelude.Table.{keep}
use brokernode.Utils.Keys.{ChunkData, generate_bulk_keys}
use brokernode.Models.Session.{
  UploadSession, session_type_alpha, session_type_beta, payment_status_confirmed,
  treasure_in_data_map_complete, treasure_in_data_map_pending, all_data_is_ready,
  all_data_not_ready,
}

abbrev pub is_alpha : UploadSession → Bool
is_alpha u = eqb_ℤ u.type session_type_alpha

abbrev pub is_beta : UploadSession → Bool
is_beta u = eqb_ℤ u.type session_type_beta

-- The condition that GetReadySessions adds to the query's.
pub is_ready : UploadSession → Bool
is_ready u =
    if is_beta u && not (eqb_ℤ u.next_idx_to_attach (negsuc 0))
    then true
    else is_alpha u && ltb_ℤ u.next_idx_to_attach u.num_chunks

-- The condition that GetVerifiableSessions adds.
pub is_verifiable : UploadSession → Bool
is_verifiable u =
    if is_beta u
      && eqb_ℤ u.next_idx_to_attach (negsuc 0)
      && not (eqb_ℤ u.next_idx_to_verify u.next_idx_to_attach)
    then true
    else is_alpha u
      && eqb_ℤ u.next_idx_to_attach u.num_chunks
      && not (eqb_ℤ u.next_idx_to_verify u.next_idx_to_attach)

-- The condition that GetCompletedSessions adds.
pub is_completed : UploadSession → Bool
is_completed u = eqb_ℤ u.next_idx_to_verify (if is_beta u then negsuc 0 else u.num_chunks)

-- The WHERE clause that the three share.
abbrev pub is_paid_and_stored : UploadSession → Bool
is_paid_and_stored u =
    eqb_ℤ u.payment_status payment_status_confirmed
    && eqb_ℤ u.treasure_status treasure_in_data_map_complete
    && eqb_ℤ u.all_data_ready all_data_is_ready

-- A list of sessions, and whether there was no error.
abbrev pub or_empty : Option (List UploadSession) → List UploadSession × Bool
or_empty none = ([], false)
or_empty (some us) = (us, true)

module _ (select : (UploadSession → Bool) → Option (List UploadSession)) where
  -- GetSessionsByOldestUpdate
  pub get_sessions_by_oldest_update : List UploadSession × Bool
  get_sessions_by_oldest_update = or_empty (select is_paid_and_stored)

  -- GetReadySessions
  pub get_ready_sessions : List UploadSession × Bool
  unfolding get_sessions_by_oldest_update
  get_ready_sessions = let (us, fine) = get_sessions_by_oldest_update in (keep is_ready us, fine)

  -- GetVerifiableSessions
  pub get_verifiable_sessions : ℕ → List UploadSession × Bool
  get_verifiable_sessions threshold_time =
      let (us, fine) =
        or_empty (select (λ u. is_paid_and_stored u && leb u.updated_at threshold_time)) in
      (keep is_verifiable us, fine)

  -- GetCompletedSessions
  pub get_completed_sessions : List UploadSession × Bool
  unfolding get_sessions_by_oldest_update
  get_completed_sessions =
      let (us, fine) = get_sessions_by_oldest_update in (keep is_completed us, fine)

  -- GetSessionsWithIncompleteData
  pub get_sessions_with_incomplete_data : List UploadSession × Bool
  get_sessions_with_incomplete_data =
      or_empty (select (λ u. eqb_ℤ u.all_data_ready all_data_not_ready))

  -- GetSessionsThatNeedTreasure
  pub get_sessions_that_need_treasure : List UploadSession × Bool
  get_sessions_that_need_treasure = or_empty (
      select (λ u.
        eqb_ℤ u.payment_status payment_status_confirmed
        && eqb_ℤ u.treasure_status treasure_in_data_map_pending))

-- stopChunkIdx of GetUnassignedChunksBySession.
pub stop_chunk_idx : UploadSession → ℤ → ℤ
stop_chunk_idx u offset =
    let up = add64 u.next_idx_to_attach offset in
    let last = add64 u.num_chunks (negsuc 0) in
    let down = wrap64 (u.next_idx_to_attach -ℤ offset) in
    if is_alpha u
    then if ltb_ℤ last up then last else up
    else if ltb_ℤ down (pos 0)
    then pos 0
    else down

-- The keys that GetUnassignedChunksBySession asks the store of chunks in progress for.
pub unassigned_keys : UploadSession → ℤ → List Bytes
unfolding stop_chunk_idx
unassigned_keys u offset =
    generate_bulk_keys u.genesis_hash u.next_idx_to_attach (stop_chunk_idx u offset)

-- Whether GetChunkForWebnodePoW takes its chunk from the session, and the session after that.
unfoldable pub takes_from : UploadSession → Bool
takes_from u =
    if is_alpha u
    then not (eqb_ℤ u.next_idx_to_attach (add64 u.num_chunks (negsuc 0)))
    else not (eqb_ℤ u.next_idx_to_attach (pos 0))

pub taken : UploadSession → UploadSession
taken u = record u {
  next_idx_to_attach = add64 u.next_idx_to_attach (if is_alpha u then pos 1 else negsuc 0);
}

module _ (get_single_chunk_data : Bytes → ℤ → ChunkData) where
  -- The loop: the chunk, if there is one, and the sessions after it.
  pub pow_loop : List UploadSession → Option ChunkData × List UploadSession
  unfolding takes_from taken
  pow_loop [] = (none, [])
  pow_loop (u ∷ us) =
      let (chunk, us') = pow_loop us in
      if takes_from u
      then (some (get_single_chunk_data u.genesis_hash u.next_idx_to_attach), taken u ∷ us)
      else (chunk, u ∷ us')

  -- GetChunkForWebnodePoW over the ready sessions: the variable `i` of its loop is not the one that
  -- says which session is written, which stays 0. `none` is the panic of an empty slice.
  pub get_chunk_for_webnode_pow :
      {Db : Type 0} (write : UploadSession → Db → Db)
      → List UploadSession
      → Db
      → Option (Option ChunkData × Db)
  unfolding pow_loop
  get_chunk_for_webnode_pow write sessions db =
      let (chunk, sessions') = pow_loop sessions in
      elim sessions' [ [] ↦ none | u ∷ us ↦ some (chunk, write u db) ]
