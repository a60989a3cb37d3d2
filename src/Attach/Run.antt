-- ===== src/Attach/Run.antt =====
-- jobs/process_unassigned_chunks.go: the batches of a session's chunks, and the sessions of a run.
pub mod Sizes
pub mod Batch
use brokernode.Prelude.{
  Bool, List, Option, [], false, if◌then◌else◌, leb, ltb, none, some, suc, true, zero, ℕ, ◌++◌, ◌+◌,
  ◌-◌, ◌∷◌, ◌*◌, ◌==◌,
}
use brokernode.Attach.Handled.{
  Handled, Staged, Tangle, Wallets, stage_treasures, handle_treasure_chunks,
}
use brokernode.Attach.{
  ChunkChannel, Sending, insert_treasure_chunks, send_chunks, skip_verification_of_first_chunks,
  skipped, length, take, drop, bundle_size,
}
use brokernode.Prelude.Int.{ℤ, pos}
use brokernode.Prelude.Bytes.{Bytes}
use brokernode.Utils.Keys.{ChunkData, chunk_key}
use brokernode.Utils.Mode.{BrokerMode, PowMode, pow_enabled, pow_disabled}
use brokernode.Models.Session.{UploadSession}
use brokernode.Models.Session.Progress.{
  update_index_with_attached_chunks, update_index_with_verified_chunks,
}
use brokernode.Models.Session.Stores.{Stores, Works}
use brokernode.Iota.{FilteredChunk, max_number_of_address_per_find_transaction_request}

-- The IotaService that the job is given, the settings, and which writes to badger work.
pub record Setting : Type 0 where
  pub tangle : Tangle
  pub verify : List ChunkData → FilteredChunk
  pub works : Works
  pub wallets : Wallets
  pub broker_mode : BrokerMode
  pub pow_mode : PowMode
  pub enable_lambda : Bool

-- Where chunks go: in bundles to channels, or all together to the lambda.
pub data Dispatch : Type 0 where
  to_channels : List Sending → Dispatch
  to_lambda : List ChunkData → Dispatch

-- What a run changes: the session, the database and the stores; what it stages and sends.
pub record Outcome (Db : Type 0) : Type 0 where
  pub session : UploadSession
  pub db : Db
  pub stores : Stores
  pub staged : List Staged
  pub dispatched : List Dispatch

-- GetSingleChunkData(CompletedDir, …).Hash: empty where there is none.
abbrev pub hash_in : Option Bytes → Bytes
hash_in none = []
hash_in (some hash) = hash

abbrev pub completed_hash : Stores → UploadSession → ℤ → Bytes
completed_hash st u i = hash_in (st.done_hashes (chunk_key u.genesis_hash i))

abbrev is_enabled : PowMode → Bool
is_enabled pow_enabled = true
is_enabled pow_disabled = false

module _ {Db : Type 0} (write : UploadSession → Db → Db) (sv : Setting)
    (channels : List ChunkChannel) where
  abbrev pub attach : List ChunkData → Outcome Db → Outcome Db
  attach chunks o =
      let (u, db) =
        update_index_with_attached_chunks write (completed_hash o.stores o.session) o.session chunks
          o.db in
      record o { session = u; db = db }

  abbrev pub verified_by : List ChunkData → Outcome Db → Outcome Db
  verified_by chunks o =
      let (u, db) =
        update_index_with_verified_chunks write (completed_hash o.stores o.session) o.session chunks
          o.db in
      record o { session = u; db = db }

  -- The chunks that are already there, if there are any, count as attached and as verified.
  abbrev pub count_matching : List ChunkData → Outcome Db → Outcome Db
  count_matching [] o = o
  count_matching (c ∷ cs) o = verified_by (c ∷ cs) (attach (c ∷ cs) o)

  abbrev pub sent_to : Option (List Sending) → Outcome Db → Option (Outcome Db)
  sent_to none o = none
  sent_to (some sends) o = some (record o { dispatched = o.dispatched ++ to_channels sends ∷ [] })

  -- What is to be sent counts as attached and goes out; `none` is the panic of SendChunks.
  abbrev pub dispatch : List ChunkData → Outcome Db → Option (Outcome Db)
  dispatch chunks o =
      let o' = attach chunks o in
      if sv.enable_lambda
      then some (record o' { dispatched = o'.dispatched ++ to_lambda chunks ∷ [] })
      else sent_to (send_chunks chunks channels) o'

  abbrev pub dispatch_any : List ChunkData → Outcome Db → Option (Outcome Db)
  dispatch_any [] o = some o
  dispatch_any (c ∷ cs) o = if is_enabled sv.pow_mode then dispatch (c ∷ cs) o else some o

  -- The chunks without treasures that go out.
  abbrev pub to_send : List ChunkData → FilteredChunk → List ChunkData
  to_send skipped f = (skipped ++ f.not_attached) ++ f.does_not_match_tangle

  -- The batch after its treasures were handled.
  abbrev pub handled_batch : Handled → Outcome Db → Option (Outcome Db)
  handled_batch h o =
      let (skip, rest) = skip_verification_of_first_chunks h.to_attach o.session in
      let f = sv.verify rest in
      let o' = count_matching f.matches_tangle (record o { stores = h.stores }) in
      let all = insert_treasure_chunks (to_send skip f) h.treasures_to_attach o'.session in
      let rows = stage_treasures sv.broker_mode sv.wallets h.treasures_to_attach o'.session in
      dispatch_any all (record o' { staged = o'.staged ++ rows })

  -- One round of the loop of FilterAndAssignChunksToChannels.
  unfoldable pub batch : List ChunkData → Outcome Db → Option (Outcome Db)
  batch chunks o =
      handled_batch (handle_treasure_chunks sv.tangle sv.works o.session chunks o.stores) o

  -- The loop, on fuel. The session is read once, and its copy goes from batch to batch.
  abbrev pub then_do :
      Option (Outcome Db) → (Outcome Db → Option (Outcome Db)) → Option (Outcome Db)
  then_do none next = none
  then_do (some o) next = next o

  unfoldable pub batch_loop : ℕ → List ChunkData → ℕ → Outcome Db → Option (Outcome Db)
  unfolding batch
  batch_loop zero chunks i o = some o
  batch_loop (suc fuel) chunks i o =
      let size = max_number_of_address_per_find_transaction_request in
      let end = if ltb (length chunks) (i + size) then length chunks else i + size in
      let next =
        then_do (batch (take (end - i) (drop i chunks)) o)
          (λ o'. batch_loop fuel chunks (i + size) o') in
      if leb end i then some o else next

  -- FilterAndAssignChunksToChannels: every round but the last takes a thousand chunks.
  unfoldable pub filter_and_assign_chunks_to_channels :
      List ChunkData → Outcome Db → Option (Outcome Db)
  unfolding batch_loop
  filter_and_assign_chunks_to_channels chunks o = batch_loop (length chunks + 1) chunks 0 o

-- GetSessionUnassignedChunks: `ready` is GetReadyChannels, `unassigned` is GetUnassignedChunksBySession
-- and `assign` is FilterAndAssignChunksToChannels, which `none` says has panicked.
module _ {World : Type 0} (ready : World → List ChunkChannel)
    (unassigned : World → UploadSession → ℕ → List ChunkData)
    (assign : List ChunkData → List ChunkChannel → UploadSession → World → Option World) where
  abbrev assign_any : List ChunkData → List ChunkChannel → UploadSession → World → Option World
  assign_any [] channels u world = some world
  assign_any (c ∷ cs) channels u world = assign (c ∷ cs) channels u world

  -- What is left to do with the sessions after this one, unless all channels are used up.
  abbrev unless_used : Bool → Option World → (World → Option World) → Option World
  unless_used used none next = none
  unless_used used (some world) next = if used then some world else next world

  unfoldable pub get_session_unassigned_chunks : List UploadSession → World → Option World
  get_session_unassigned_chunks [] world = some world
  get_session_unassigned_chunks (u ∷ us) world =
      let channels = ready world in
      let chunks = unassigned world u (length channels * bundle_size) in
      let next =
        unless_used (leb (length channels * bundle_size) (length chunks))
          (assign_any chunks channels u world) (λ w. get_session_unassigned_chunks us w) in
      if length channels == 0 then some world else next
