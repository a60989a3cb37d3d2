-- ===== src/Models/DataMaps/Chain/Stored.antt =====
-- models/upload_sessions.go, BuildDataMapsForSession: what its loop and its end leave in the store.
use brokernode.Store.Registry.Batches.Reading.{start, start-open_in}
use brokernode.Store.Pairs.{lookup_pair}
use brokernode.Utils.Keys.{chunk_key}
use brokernode.Store.Agree.{
  Agrees, put_pair-Agrees, lookup_pair-put_pair_self, lookup_pair-put_pair_ne,
}
use brokernode.Store.{Badger, Laws, put_pair, get_ttl}
use brokernode.Prelude.Int.{pos}
use brokernode.Prelude.Bytes.{Bytes, bytes_eq, bytes_eq_refl}
use brokernode.Models.DataMaps.Chain.{
  At, after_batch, batch_of, chunk_key_inj, hash_chain, hash_k, insert_batch-At, key_k, set_now,
  stored, There,
}
use brokernode.Models.DataMaps.{
  Building, Built, build_data_maps_for_session, build_in, build_loop, build_round, built,
  data_maps_time_to_live, empty_build, end_of_build, end_with, hash_store, max_badger_insertions,
}
use mathlib.Core.Path.{subst}
use brokernode.Prelude.{
  ◌^◌, Bool, Bool-cases, List, [], ap, arith, false, if◌then◌else◌, inl, inr, leb, none, refl, some,
  suc, sym, true, zero, ℕ, ◌+◌, ◌-◌, ◌<◌, ◌∙◌, ◌∷◌, ◌≡◌, ◌≢◌, ◌≤◌,
}
use brokernode.Store.Registry.{Files, OpenStores, get_or_init_unique_badger_db}

module _ {World Db Txn : Type 0} (fs : Files World Db) (b : Badger World Db Txn) (laws : Laws b)
    (sha256 : Bytes → Bytes) (gen_hash : Bytes) (db : Db) (k : ℕ) (small : k < 2 ^ 63) where
  -- The pair that a round adds.
  more : ℕ → Building World Db → Building World Db
  more i st = record st {
    kv_pairs = put_pair (chunk_key gen_hash (pos i)) st.curr_hash st.kv_pairs;
    curr_hash = sha256 st.curr_hash;
    insertion_count = st.insertion_count + 1;
  }

  new_pair :
      (i : ℕ) (st : Building World Db)
      → i < 2 ^ 63
      → (At fs b laws sha256 gen_hash db k small) i st
      → Agrees
          (key_k fs b laws sha256 gen_hash db k small)
          (hash_k fs b laws sha256 gen_hash db k small)
          (chunk_key gen_hash (pos i), st.curr_hash)
  new_pair i st hi h = record {
    has_it = λ same.
        h.current ∙ ap (hash_chain sha256 gen_hash) (chunk_key_inj gen_hash i k hi small same);
  }

  put-There :
      (i : ℕ) (st : Building World Db)
      → i < 2 ^ 63
      → (At fs b laws sha256 gen_hash db k small) i st
      → k < suc i
      → (There fs b laws sha256 gen_hash db k small) (more i st)
  unfolding more
  put-There i st hi h lt =
      elim (Bool-cases
        (bytes_eq (chunk_key gen_hash (pos i)) (key_k fs b laws sha256 gen_hash db k small))) [
          | inl same ↦
              let it : i ≡ k = chunk_key_inj gen_hash i k hi small same in
              inl (
                subst
                  (λ j.
                    lookup_pair (chunk_key gen_hash (pos j))
                      (put_pair (chunk_key gen_hash (pos i)) st.curr_hash st.kv_pairs)
                    ≡ some (hash_chain sha256 gen_hash j))
                  it
                  (lookup_pair-put_pair_self (chunk_key gen_hash (pos i)) st.curr_hash st.kv_pairs
                    ∙ ap some h.current))
          | inr other ↦ elim (h.there_if (earlier other)) [
            | inl in_pairs ↦ inl (
                lookup_pair-put_pair_ne (key_k fs b laws sha256 gen_hash db k small)
                  (chunk_key gen_hash (pos i)) st.curr_hash st.kv_pairs other
                ∙ in_pairs)
            | inr in_store ↦ inr in_store
          ]
        ]
    where
      not_same :
          bytes_eq (chunk_key gen_hash (pos i)) (key_k fs b laws sha256 gen_hash db k small) ≡ false
          → i ≢ k
      not_same other e =
          let refl_key = bytes_eq_refl (key_k fs b laws sha256 gen_hash db k small) in
          let other' : bytes_eq (key_k fs b laws sha256 gen_hash db k small)
                (key_k fs b laws sha256 gen_hash db k small)
              ≡ false =
            subst
              (λ j.
                bytes_eq (chunk_key gen_hash (pos j)) (key_k fs b laws sha256 gen_hash db k small)
                ≡ false)
              e other in
          absurd cc

      earlier :
          bytes_eq (chunk_key gen_hash (pos i)) (key_k fs b laws sha256 gen_hash db k small) ≡ false
          → k < i
      earlier other = let ne = not_same other in omega arith

  more-At :
      (i : ℕ) (st : Building World Db)
      → i < 2 ^ 63
      → (At fs b laws sha256 gen_hash db k small) i st
      → (At fs b laws sha256 gen_hash db k small) (suc i) (more i st)
  unfolding more
  more-At i st hi h = record {
    opened_store = h.opened_store;
    current = ap sha256 h.current;
    agreeing =
        put_pair-Agrees (key_k fs b laws sha256 gen_hash db k small)
          (hash_k fs b laws sha256 gen_hash db k small) (chunk_key gen_hash (pos i)) st.curr_hash
          st.kv_pairs (new_pair i st hi h) h.agreeing;
    there_if = put-There i st hi h;
  }

  if-At :
      (i : ℕ) (c : Bool) (x y : Building World Db)
      → (At fs b laws sha256 gen_hash db k small) i x
      → (At fs b laws sha256 gen_hash db k small) i y
      → (At fs b laws sha256 gen_hash db k small) i (if c then x else y)
  if-At i true x y hx hy = hx
  if-At i false x y hx hy = hy

  round-At :
      (i : ℕ) (st : Building World Db)
      → i < 2 ^ 63
      → (At fs b laws sha256 gen_hash db k small) i st
      → (At fs b laws sha256 gen_hash db k small) (suc i) (build_round fs b sha256 gen_hash i st)
  unfolding build_round more
  round-At i st hi h =
      if-At (suc i) (leb max_badger_insertions (st.insertion_count + 1)) _ _
        ((insert_batch-At fs b laws sha256 gen_hash db k small) (suc i) (more i st)
          (more-At i st hi h))
        (more-At i st hi h)

  loop-At :
      (left i : ℕ) (st : Building World Db)
      → i + left ≤ 2 ^ 63
      → (At fs b laws sha256 gen_hash db k small) i st
      → (At fs b laws sha256 gen_hash db k small)
          (i + left)
          (build_loop fs b sha256 gen_hash left i st)
  unfolding build_loop
  loop-At zero i st hi h =
      subst (λ j. (At fs b laws sha256 gen_hash db k small) j st) (zero_right i) h
    where
      zero_right : (i : ℕ) → i ≡ i + 0
      zero_right i = omega arith
  loop-At (suc left) i st hi h =
      subst
        (λ j.
          (At fs b laws sha256 gen_hash db k small) j
            (build_loop fs b sha256 gen_hash (suc left) i st))
        (suc_right i left)
        (loop-At left (suc i) (build_round fs b sha256 gen_hash i st) (omega arith)
          (round-At i st (omega arith) h))
    where
      suc_right : (i left : ℕ) → suc i + left ≡ i + suc left
      suc_right i left = omega arith

  -- What the function leaves in the store, where it ends with no error.
  InStore : Built × OpenStores World Db → Type 0
  InStore r =
      laws.contents ((r.1).world) db (key_k fs b laws sha256 gen_hash db k small)
      ≡ (stored fs b laws sha256 gen_hash db k small)

  end_with-InStore :
      (i : ℕ) (st : Building World Db) (kvs : List (Bytes × Bytes)) (ok : Bool)
      → st.kv_pairs ≡ kvs
      → ((batch_of fs b laws sha256 gen_hash db k small) st.kv_pairs st.stores).0 ≡ ok
      → k < i
      → (At fs b laws sha256 gen_hash db k small) i st
      → (end_with fs b sha256 gen_hash kvs st.no_error st.stores (
        ok,
        record (st.stores) {
          world = ((batch_of fs b laws sha256 gen_hash db k small) st.kv_pairs st.stores).1;
        },
      )).0
        ≡ built
      → InStore (
          end_with fs b sha256 gen_hash kvs st.no_error st.stores (
            ok,
            record (st.stores) {
              world = ((batch_of fs b laws sha256 gen_hash db k small) st.kv_pairs st.stores).1;
            },
          ))
  unfolding InStore
  end_with-InStore i st [] ok e c lt h end = elim (h.there_if lt) [
    | inl in_pairs ↦
        let none_there : none ≡ some (hash_k fs b laws sha256 gen_hash db k small) =
          rw e at in_pairs in
        absurd cc
    | inr in_store ↦ in_store
  ]
  end_with-InStore i st (kv ∷ kvs) true e c lt h end =
      (after_batch fs b laws sha256 gen_hash db k small) st h.agreeing c (h.there_if lt)
  end_with-InStore i st (kv ∷ kvs) false e c lt h end = absurd cc

  end-InStore :
      (i : ℕ) (st : Building World Db)
      → k < i
      → (At fs b laws sha256 gen_hash db k small) i st
      → (end_of_build fs b sha256 gen_hash st).0 ≡ built
      → InStore (end_of_build fs b sha256 gen_hash st)
  unfolding end_of_build
  end-InStore i st lt h ok =
      let as_set =
        ap (end_with fs b sha256 gen_hash st.kv_pairs st.no_error st.stores)
          ((set_now fs b laws sha256 gen_hash db k small) st.kv_pairs st.stores h.opened_store) in
      subst InStore (sym as_set) (
        end_with-InStore i st st.kv_pairs
          (((batch_of fs b laws sha256 gen_hash db k small) st.kv_pairs st.stores).0) refl refl lt h
          (ap (λ r. r.0) (sym as_set) ∙ ok))

-- With what badger documents of its transactions: where BuildDataMapsForSession, for fewer than 2^63
-- chunks, ends with no error, then db, the store of the upload's hashes that it found or opened, has for
-- every chunk k of the upload the hash that is k times the hash of the genesis hash, with the time to live of
-- data maps, however many batches failed on the way and were written again.
pub build_data_maps_for_session-hash_chain :
    {World Db Txn : Type 0} (fs : Files World Db) (b : Badger World Db Txn) (laws : Laws b)
    (sha256 : Bytes → Bytes) (gen_hash : Bytes) (num_chunks k : ℕ) (s : OpenStores World Db)
    (db : Db)
    → num_chunks ≤ 2 ^ 63 - 1
    → k < num_chunks
    → (get_or_init_unique_badger_db fs (hash_store fs b sha256 gen_hash) s).0 ≡ some db
    → (build_data_maps_for_session fs b sha256 gen_hash num_chunks s).0 ≡ built
    → laws.contents
        ((build_data_maps_for_session fs b sha256 gen_hash num_chunks s).1).world
        db
        (chunk_key gen_hash (pos k))
      ≡ some (record {
        value = hash_chain sha256 gen_hash k;
        ttl = get_ttl fs.under_test data_maps_time_to_live;
      })
unfolding build_data_maps_for_session InStore
build_data_maps_for_session-hash_chain fs b laws sha256 gen_hash n k s db small lt opens ok =
    let id = hash_store fs b sha256 gen_hash in
    let s' = (start fs b laws id s).1 in
    let as_in = ap (λ o. build_in fs b sha256 gen_hash o n s') opens in
    let built_in : (build_in fs b sha256 gen_hash (some db) n s').0 ≡ built =
      ap (λ r. r.0) (sym as_in) ∙ ok in
    let begun : At fs b laws sha256 gen_hash db k (omega arith) 0
        (empty_build fs b sha256 gen_hash s') =
      record {
        opened_store = start-open_in fs b laws id s ∙ opens;
        current = refl;
        agreeing = tt;
        there_if = λ h. absurd (omega arith);
      } in
    subst
      (λ r.
        laws.contents ((r.1).world) db (chunk_key gen_hash (pos k))
        ≡ some (record {
          value = hash_chain sha256 gen_hash k;
          ttl = get_ttl fs.under_test data_maps_time_to_live;
        }))
      (sym as_in)
      (end-InStore fs b laws sha256 gen_hash db k (omega arith) (0 + n) _ (omega arith)
        (loop-At fs b laws sha256 gen_hash db k (omega arith) n 0
          (empty_build fs b sha256 gen_hash s') (omega arith) begun)
        built_in)
