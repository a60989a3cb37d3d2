-- ===== src/Housekeeping.antt =====
-- jobs/purge_completed_sessions.go and jobs/remove_unpaid_upload_session.go, where the data maps are in
-- badger, with NewCompletedUpload of models/completed_uploads.go.
pub mod Purged
mod Tests
use brokernode.Models.Session.Selection.{get_completed_sessions}
use brokernode.Store.Registry.Batches.Chunks.{message_dir, hash_dir, or_no_bytes}
use brokernode.Models.DataMaps.{in_progress_dir}
use brokernode.Utils.Keys.{get_badger_db_name}
use brokernode.Models.MoveAll.{move_all_chunks_to_completed_badger}
use brokernode.Store.{Badger}
use brokernode.Utils.Mode.{BrokerMode, PaymentMode}
use brokernode.Prelude.Word.{wrap64}
use brokernode.Prelude.Table.{for_each, keep}
use brokernode.Prelude.Int.{eqb_ℤ, ltb_ℤ, pos, ℤ}
use brokernode.Prelude.Bytes.{Bytes, bytes_eq}
use brokernode.Prelude.{
  Bool, List, Option, [], false, if◌then◌else◌, leb, map, none, not, some, true, ℕ, ◌&&◌, ◌++◌, ◌-◌,
  ◌==◌, ◌∷◌,
}
use brokernode.Store.Registry.{Files, OpenStores, close_unique_kv_store}
use brokernode.Unused.{CompletedUpload, upload_before_create}
use brokernode.Models.Session.{
  UploadSession, payment_status_confirmed, session_type_alpha, session_type_beta,
}

-- The two tables and the stores.
pub record Keeping (World Db : Type 0) : Type 0 where
  pub sessions : List UploadSession
  pub uploads : List CompletedUpload
  pub stores : OpenStores World Db

-- What the jobs call: the clock, in hours, the database, the keys, and a balance. The row of a new upload
-- has the key that its encryption stores, and an id that the database gives.
pub record Sources : Type 0 where
  pub hours : ℕ
  pub updated_hour : UploadSession → ℕ
  pub select : List UploadSession → (UploadSession → Bool) → Option (List UploadSession)
  pub find_sessions_works : Bytes → Bool
  pub find_uploads_works : Bytes → Bool
  pub delete_sessions_works : Bytes → Bool
  pub find_unpaid_works : Bool
  pub delete_session_works : UploadSession → Bool
  pub saves : CompletedUpload → Bool
  pub stored_key : UploadSession → Bytes
  pub new_id : List CompletedUpload → ℕ
  pub now_time : ℕ
  pub broker_mode : BrokerMode
  pub payment_mode : PaymentMode
  pub prl_balance : Bytes → ℤ

abbrev pub session_has : Bytes → UploadSession → Bool
session_has h u = bytes_eq u.genesis_hash h

abbrev pub upload_has : Bytes → CompletedUpload → Bool
upload_has h t = bytes_eq t.genesis_hash h

abbrev pub unpaid_expiration_in_hour : ℕ
unpaid_expiration_in_hour = 24

module _ {World Db Txn : Type 0} (fs : Files World Db) (b : Badger World Db Txn)
    (src : Sources) where
  -- NewCompletedUpload: the address by the session's type, or `none` for another type. That the row was
  -- not saved is logged, and is no error.
  abbrev pub address_by_type : UploadSession → Option Bytes
  address_by_type u =
      if eqb_ℤ u.type session_type_alpha
      then some (or_no_bytes u.eth_addr_alpha)
      else if eqb_ℤ u.type session_type_beta
      then some (or_no_bytes u.eth_addr_beta)
      else none

  pub upload_of : Bytes → UploadSession → List CompletedUpload → CompletedUpload
  unfolding upload_before_create
  upload_of address u uploads = upload_before_create src.broker_mode src.payment_mode (record {
    id = src.new_id uploads;
    updated_at = src.now_time;
    genesis_hash = u.genesis_hash;
    eth_addr = address;
    eth_private_key = src.stored_key u;
    prl_status = pos 0;
    prl_tx_hash = [];
    prl_tx_nonce = pos 0;
    gas_status = pos 0;
    gas_tx_hash = [];
    gas_tx_nonce = pos 0;
  })

  abbrev saved_if : Bool → CompletedUpload → Keeping World Db → Keeping World Db
  saved_if true t s = record s { uploads = s.uploads ++ (t ∷ []) }
  saved_if false t s = s

  abbrev pub created : Option Bytes → UploadSession → Keeping World Db → Bool × Keeping World Db
  created none u s = (false, s)
  created (some address) u s =
      let t = upload_of address u s.uploads in (true, saved_if (src.saves t) t s)

  pub new_completed_upload : UploadSession → Keeping World Db → Bool × Keeping World Db
  unfolding upload_of
  new_completed_upload u s = created (address_by_type u) u s

  -- createCompletedDataMapIfNeeded: whether it had no error, and the state after it.
  abbrev pub create_for :
      List CompletedUpload → List UploadSession → Keeping World Db → Bool × Keeping World Db
  create_for (t ∷ found) sessions s = (true, s)
  create_for [] [] s = (true, s)
  create_for [] (u ∷ sessions) s = new_completed_upload u s

  pub create_completed_data_map_if_needed : Bytes → Keeping World Db → Bool × Keeping World Db
  unfolding new_completed_upload
  create_completed_data_map_if_needed h s =
      let made = create_for (keep (upload_has h) s.uploads) (keep (session_has h) s.sessions) s in
      if src.find_uploads_works h && src.find_sessions_works h then made else (false, s)

  -- DELETE FROM upload_sessions WHERE genesis_hash = h
  abbrev pub delete_if : Bool → Bytes → Keeping World Db → Keeping World Db
  delete_if true h s = record s { sessions = keep (λ u. not (session_has h u)) s.sessions }
  delete_if false h s = s

  -- purgeSessions; the loop that moves the chunks always ends.
  abbrev pub on_moved :
      Option (Bool × OpenStores World Db) → Bytes → Keeping World Db → Keeping World Db
  on_moved none h s = s
  on_moved (some (false, stores')) h s = record s { stores = stores' }
  on_moved (some (true, stores')) h s =
      let (ok, s') = create_completed_data_map_if_needed h (record s { stores = stores' }) in
      delete_if (ok && src.delete_sessions_works h) h s'

  abbrev pub purge_first : Bytes → List UploadSession → Keeping World Db → Keeping World Db
  purge_first h [] s = s
  purge_first h (u ∷ more) s =
      on_moved (move_all_chunks_to_completed_badger fs b u.genesis_hash u.num_chunks s.stores) h s

  pub purge_sessions : Bytes → Keeping World Db → Keeping World Db
  unfolding create_completed_data_map_if_needed
  purge_sessions h s =
      let purged = purge_first h (keep (session_has h) s.sessions) s in
      if src.find_sessions_works h then purged else s

  -- PurgeCompletedSessions; an error of the query leaves no hashes.
  pub purge_completed_sessions : Keeping World Db → Keeping World Db
  unfolding purge_sessions
  purge_completed_sessions s =
      let (found, fine) = get_completed_sessions (src.select s.sessions) in
      for_each purge_sessions (map (λ (u : UploadSession). u.genesis_hash) found) s

  -- removeDataMapsFromBadger closes the two stores in progress.
  pub remove_data_maps_from_badger :
      UploadSession → OpenStores World Db → Bool × OpenStores World Db
  remove_data_maps_from_badger u s =
      let name =
        λ (kind : Bytes). get_badger_db_name in_progress_dir (u.genesis_hash ∷ kind ∷ []) in
      let (ok, s') = close_unique_kv_store fs (name message_dir) s in
      let closed = close_unique_kv_store fs (name hash_dir) s' in if ok then closed else (false, s')

  -- removeSession
  pub remove_session : UploadSession → Keeping World Db → Keeping World Db
  unfolding remove_data_maps_from_badger
  remove_session u s =
      let (ok, stores') = remove_data_maps_from_badger u s.stores in
      let kept = record s { stores = stores' } in
      let gone = record kept {
        sessions = keep (λ (v : UploadSession). not (v.id == u.id)) s.sessions;
      } in
      if ok && src.delete_session_works u then gone else kept

  -- The sessions that RemoveUnpaidUploadSession finds.
  pub is_unpaid : UploadSession → Bool
  is_unpaid u =
      not (eqb_ℤ u.payment_status payment_status_confirmed)
      && leb unpaid_expiration_in_hour (src.hours - src.updated_hour u)

  pub remove_unless_paid : UploadSession → Keeping World Db → Keeping World Db
  unfolding remove_session
  remove_unless_paid u s =
      let removed_one = remove_session u s in
      if ltb_ℤ (pos 0) (wrap64 (src.prl_balance (or_no_bytes u.eth_addr_alpha)))
      then s
      else removed_one

  -- RemoveUnpaidUploadSession
  pub remove_unpaid_upload_session : Keeping World Db → Keeping World Db
  unfolding is_unpaid remove_unless_paid
  remove_unpaid_upload_session s =
      let after = for_each remove_unless_paid (keep is_unpaid s.sessions) s in
      if src.find_unpaid_works then after else s
