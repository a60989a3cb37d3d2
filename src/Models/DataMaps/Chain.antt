-- ===== src/Models/DataMaps/Chain.antt =====
-- models/upload_sessions.go, BuildDataMapsForSession: every chunk's hash is in the store.
pub mod Stored
use mathlib.Core.Path.{subst}
use brokernode.Store.Registry.Batches.Reading.{
  behind-open_in, open_in, set_where_open, start, start-open_in,
}
use brokernode.Store.Registry.Batches.{batch_set_to_unique_db}
use brokernode.Store.Refine.{Carried, set_of, batch_set_in-Carried}
use brokernode.Store.Pairs.{lookup_pair}
use brokernode.Store.Agree.{
  Agrees, Carried-sets, Carried-stays, put_pair-Agrees, lookup_pair-put_pair_self,
  lookup_pair-put_pair_ne,
}
use brokernode.Utils.Keys.RoundTrip.{get_chunk_idx_from_key-chunk_key}
use brokernode.Store.{Badger, Laws, Entry, batch_set_in, get_ttl, put_pair}
use brokernode.Utils.Keys.{chunk_key, get_chunk_idx_from_key}
use brokernode.Prelude.Int.{int_laws, pos, pos_part}
use brokernode.Prelude.Bytes.{Bytes, bytes_eq, bytes_eq_sound, bytes_eq_refl}
use brokernode.Models.DataMaps.{
  Building, data_maps_time_to_live, hash_store, insert_batch, Built, build_loop, build_round, built,
  end_of_build, max_badger_insertions, build_data_maps_for_session, build_in, empty_build, end_with,
}
use brokernode.Prelude.{
  ◌^◌, All, Bool, Bool-cases, List, Option, ap, false, inl, inr, map, some, suc, sym, true, zero, ℕ,
  ◌<◌, ◌∙◌, ◌≡◌, ◌⊎◌, [], arith, if◌then◌else◌, leb, none, ◌+◌, ◌∷◌, ◌≢◌, ◌≤◌, refl, ◌-◌,
}
use brokernode.Store.Registry.{Files, OpenStores, get_or_init_unique_badger_db}

-- The hash of the chunk with an index.
abbrev pub hash_chain : (Bytes → Bytes) → Bytes → ℕ → Bytes
hash_chain sha256 gen_hash zero = gen_hash
hash_chain sha256 gen_hash (suc i) = sha256 (hash_chain sha256 gen_hash i)

-- Keys of different chunks differ.
pub chunk_key_inj :
    (gen_hash : Bytes) (i k : ℕ)
    → i < 2 ^ 63
    → k < 2 ^ 63
    → bytes_eq (chunk_key gen_hash (pos i)) (chunk_key gen_hash (pos k)) ≡ true
    → i ≡ k
chunk_key_inj gen_hash i k hi hk h =
    let read_i =
      get_chunk_idx_from_key-chunk_key gen_hash (pos i) (omega int_laws) (omega int_laws) in
    let read_k =
      get_chunk_idx_from_key-chunk_key gen_hash (pos k) (omega int_laws) (omega int_laws) in
    let same = ap get_chunk_idx_from_key (bytes_eq_sound _ _ h) in
    pos_inj i k (sym read_i ∙ (same ∙ read_k))
  where
    pos_inj : (i k : ℕ) → pos i ≡ pos k → i ≡ k
    pos_inj i k e = ap pos_part e

module _ {World Db Txn : Type 0} (fs : Files World Db) (b : Badger World Db Txn) (laws : Laws b)
    (sha256 : Bytes → Bytes) (gen_hash : Bytes) (db : Db) (k : ℕ) (small : k < 2 ^ 63) where
  abbrev pub key_k : Bytes
  key_k = chunk_key gen_hash (pos k)

  abbrev pub hash_k : Bytes
  hash_k = hash_chain sha256 gen_hash k

  -- What the store is to have of chunk k.
  abbrev pub stored : Option Entry
  stored = some (record { value = hash_k; ttl = get_ttl fs.under_test data_maps_time_to_live })

  abbrev pub IsOpen : OpenStores World Db → Type 0
  IsOpen s = open_in fs b laws (hash_store fs b sha256 gen_hash) s ≡ some db

  -- Chunk k is among the pairs, or in the store.
  abbrev pub There : Building World Db → Type 0
  There st =
      (lookup_pair key_k st.kv_pairs ≡ some hash_k)
      ⊎ (laws.contents (st.stores).world db key_k ≡ stored)

  pub record At (i : ℕ) (st : Building World Db) : Type 0 where
    pub opened_store : IsOpen st.stores
    pub current : st.curr_hash ≡ hash_chain sha256 gen_hash i
    pub agreeing : All (Agrees key_k hash_k) st.kv_pairs
    pub there_if : (k < i) → There st

  pub batch_of : List (Bytes × Bytes) → OpenStores World Db → Bool × World
  batch_of kvs s = batch_set_in b db kvs (get_ttl fs.under_test data_maps_time_to_live) s.world

  batch_of-Carried :
      (kvs : List (Bytes × Bytes)) (s : OpenStores World Db)
      → Carried
          (map (set_of (get_ttl fs.under_test data_maps_time_to_live)) kvs)
          (laws.contents s.world db)
          (laws.contents ((batch_of kvs s).1) db)
          ((batch_of kvs s).0)
  unfolding batch_of
  batch_of-Carried kvs s =
      batch_set_in-Carried b laws db kvs (get_ttl fs.under_test data_maps_time_to_live) s.world

  -- After a batch that is carried out, chunk k is in the store if it was there.
  pub after_batch :
      (st : Building World Db)
      → All (Agrees key_k hash_k) st.kv_pairs
      → (batch_of st.kv_pairs st.stores).0 ≡ true
      → There st
      → laws.contents ((batch_of st.kv_pairs st.stores).1) db key_k ≡ stored
  after_batch st a ok (inl in_pairs) =
      Carried-sets st.kv_pairs (batch_of-Carried st.kv_pairs st.stores) ok a in_pairs
  after_batch st a ok (inr in_store) =
      Carried-stays st.kv_pairs (batch_of-Carried st.kv_pairs st.stores) a in_store

  after_failure :
      (st : Building World Db)
      → All (Agrees key_k hash_k) st.kv_pairs
      → There st
      → There (record st {
        no_error = false;
        stores = record (st.stores) { world = (batch_of st.kv_pairs st.stores).1 };
      })
  after_failure st a (inl in_pairs) = inl in_pairs
  after_failure st a (inr in_store) =
      inr (Carried-stays st.kv_pairs (batch_of-Carried st.kv_pairs st.stores) a in_store)

  pub set_now :
      (kvs : List (Bytes × Bytes)) (s : OpenStores World Db)
      → IsOpen s
      → batch_set_to_unique_db fs b (hash_store fs b sha256 gen_hash) kvs data_maps_time_to_live s
        ≡ ((batch_of kvs s).0, record s { world = (batch_of kvs s).1 })
  unfolding batch_of
  set_now kvs s o =
      set_where_open fs b laws (hash_store fs b sha256 gen_hash) db kvs data_maps_time_to_live s o

  pub batch_of-IsOpen :
      (kvs : List (Bytes × Bytes)) (s : OpenStores World Db)
      → IsOpen s
      → IsOpen (record s { world = (batch_of kvs s).1 })
  batch_of-IsOpen kvs s o =
      behind-open_in fs b laws (hash_store fs b sha256 gen_hash) s (batch_of kvs s) ∙ o

  pub insert_batch-At :
      (i : ℕ) (st : Building World Db) → At i st → At i (insert_batch fs b sha256 gen_hash st)
  unfolding insert_batch
  insert_batch-At i st h = elim (Bool-cases ((batch_of st.kv_pairs st.stores).0)) [
    | inl ok ↦
        rw (set_now st.kv_pairs st.stores h.opened_store, ok, insert_batch)
          (record {
            opened_store = batch_of-IsOpen st.kv_pairs st.stores h.opened_store;
            current = h.current;
            agreeing = tt;
            there_if = λ lt. inr (after_batch st h.agreeing ok (h.there_if lt));
          })
    | inr bad ↦
        rw (set_now st.kv_pairs st.stores h.opened_store, bad, insert_batch)
          (record {
            opened_store = batch_of-IsOpen st.kv_pairs st.stores h.opened_store;
            current = h.current;
            agreeing = h.agreeing;
            there_if = λ lt. after_failure st h.agreeing (h.there_if lt);
          })
  ]
