-- ===== src/Store/RoundTrip.antt =====
-- utils/kv_store.go: reading back what a batch has written, and what a batch has deleted.
use brokernode.Store.Refine.{batch_delete_in-Carried, batch_set_in-Carried}
use brokernode.Store.Pairs.{
  Apart, Carried-true, DistinctKeys, lookup_pair, mem_key, over, replay-lookup_pair, replay-mem_key,
}
use brokernode.Prelude.Bytes.{Bytes, bytes_eq, bytes_eq_refl, is_empty}
use brokernode.Prelude.{
  All, All-append, All-map, List, Option, [], ap, append-nil, append_assoc, false, if◌then◌else◌,
  map, none, refl, some, sym, true, ℕ, ◌++◌, ◌∙◌, ◌∷◌, ◌≡◌,
}
use brokernode.Store.{
  Entry, Badger, Got, Laws, batch_delete_in, batch_set_in, found, get_loop, missing, put_pair,
}

-- What Get shows of an entry that is neither expired nor unreadable.
abbrev pub shown : Option Entry → Got
shown none = missing
shown (some e) = found e.value

abbrev pub AllShown :
    {World Db Txn : Type 0} {b : Badger World Db Txn} → Laws b → World → Db → Type 0
AllShown {b = b} laws w db = (k : Bytes) → b.get w db k ≡ shown (laws.contents w db k)

-- The pairs that are still to be read have keys that none of those read before has.
abbrev Fresh : List (Bytes × Bytes) → List (Bytes × Bytes) → Type 0
Fresh done rest =
    All (λ (kv : Bytes × Bytes). All (λ (d : Bytes × Bytes). bytes_eq (d.0) (kv.0) ≡ false) done)
      rest

put_pair-fresh :
    (k v : Bytes) (done : List (Bytes × Bytes))
    → All (λ (d : Bytes × Bytes). bytes_eq (d.0) k ≡ false) done
    → put_pair k v done ≡ done ++ ((k, v) ∷ [])
put_pair-fresh k v [] h = refl
put_pair-fresh k v ((k', v') ∷ done) h =
    rw (h.0, put_pair) (ap (λ r. (k', v') ∷ r) (put_pair-fresh k v done h.1))

append-Fresh :
    (kv : Bytes × Bytes) (done rest : List (Bytes × Bytes))
    → Fresh done rest
    → Apart (kv.0) rest
    → Fresh (done ++ (kv ∷ [])) rest
append-Fresh kv done [] f a = tt
append-Fresh kv done (r ∷ rest) f a =
    (All-append _ done (kv ∷ []) f.0 (a.0, tt), append-Fresh kv done rest f.1 a.1)

nil-Fresh : (rest : List (Bytes × Bytes)) → Fresh [] rest
nil-Fresh [] = tt
nil-Fresh (r ∷ rest) = (tt, nil-Fresh rest)

abbrev pub keys_of : List (Bytes × Bytes) → List Bytes
keys_of kvs = map (λ (kv : Bytes × Bytes). kv.0) kvs

abbrev pub NonEmptyKeys : List (Bytes × Bytes) → Type 0
NonEmptyKeys kvs = All (λ (kv : Bytes × Bytes). is_empty (kv.0) ≡ false) kvs

module _ {World Db Txn : Type 0} (b : Badger World Db Txn) where
  get_loop_lem :
      (w : World) (db : Db) (done rest : List (Bytes × Bytes))
      → Fresh done rest
      → DistinctKeys rest
      → NonEmptyKeys rest
      → All (λ (kv : Bytes × Bytes). b.get w db (kv.0) ≡ found (kv.1)) rest
      → get_loop b w db (keys_of rest) done ≡ (true, done ++ rest)
  unfolding get_loop
  get_loop_lem w db done [] f d n g = ap (λ r. (true, r)) (sym (append-nil done))
  get_loop_lem w db done ((k, v) ∷ rest) f d n g =
      rw (n.0, g.0, put_pair-fresh k v done f.0)
        (get_loop_lem w db (done ++ ((k, v) ∷ [])) rest (append-Fresh (k, v) done rest f.1 d.0) d.1
            n.1 g.1
          ∙ ap (λ r. (true, r)) (append_assoc done ((k, v) ∷ []) rest))

-- A pair of a map with distinct keys is what the map has at its key.
own_pairs :
    (kvs : List (Bytes × Bytes))
    → DistinctKeys kvs
    → All (λ (kv : Bytes × Bytes). lookup_pair (kv.0) kvs ≡ some (kv.1)) kvs
own_pairs [] d = tt
own_pairs ((k, v) ∷ kvs) d =
    (rw (bytes_eq_refl k, lookup_pair) refl, behind k v kvs kvs d.0 (own_pairs kvs d.1))
  where
    behind :
        (k v : Bytes) (kvs rest : List (Bytes × Bytes))
        → Apart k rest
        → All (λ (kv : Bytes × Bytes). lookup_pair (kv.0) kvs ≡ some (kv.1)) rest
        → All (λ (kv : Bytes × Bytes). lookup_pair (kv.0) ((k, v) ∷ kvs) ≡ some (kv.1)) rest
    behind k v kvs [] a h = tt
    behind k v kvs (r ∷ rest) a h = (rw (a.0, lookup_pair) h.0, behind k v kvs rest a.1 h.1)

module _ {World Db Txn : Type 0} (b : Badger World Db Txn) (laws : Laws b) (db : Db) where
  -- A batched write of pairs with distinct keys that reports no error leaves at every key the pair's value
  -- with its time to live, where a pair has the key, and else the entry from before: in whichever order
  -- the pairs were taken.
  pub batch_set_in-lookup_pair :
      (kvs : List (Bytes × Bytes)) (ttl : ℕ) (w : World) (q : Bytes)
      → DistinctKeys kvs
      → (batch_set_in b db kvs ttl w).0 ≡ true
      → laws.contents ((batch_set_in b db kvs ttl w).1) db q
        ≡ over ttl (lookup_pair q kvs) (laws.contents w db q)
  batch_set_in-lookup_pair kvs ttl w q d ok =
      ap (λ f. f q) (Carried-true (batch_set_in-Carried b laws db kvs ttl w) ok)
      ∙ replay-lookup_pair ttl kvs (laws.contents w db) q d

  -- Where a batched write of pairs, with keys that are distinct and not empty, reports no error, and no
  -- entry of the store has expired or is unreadable, the batched read of the keys gives the pairs.
  pub batch_get-batch_set :
      (kvs : List (Bytes × Bytes)) (ttl : ℕ) (w : World)
      → DistinctKeys kvs
      → NonEmptyKeys kvs
      → (batch_set_in b db kvs ttl w).0 ≡ true
      → AllShown laws ((batch_set_in b db kvs ttl w).1) db
      → get_loop b ((batch_set_in b db kvs ttl w).1) db (keys_of kvs) [] ≡ (true, kvs)
  batch_get-batch_set kvs ttl w d n ok readable =
      get_loop_lem b ((batch_set_in b db kvs ttl w).1) db [] kvs (nil-Fresh kvs) d n (
        All-map _ _ kvs
          (λ (kv : Bytes × Bytes) (h : lookup_pair (kv.0) kvs ≡ some (kv.1)).
            readable (kv.0)
            ∙ ap shown (
                batch_set_in-lookup_pair kvs ttl w (kv.0) d ok
                ∙ ap (λ o. over ttl o (laws.contents w db (kv.0))) h))
          (own_pairs kvs d))

  -- A batched deletion that reports no error leaves none of its keys, and every other key as it was.
  pub batch_delete_in-mem_key :
      (ks : List Bytes) (w : World) (q : Bytes)
      → (batch_delete_in b db ks w).0 ≡ true
      → laws.contents ((batch_delete_in b db ks w).1) db q
        ≡ (if mem_key q ks then none else laws.contents w db q)
  batch_delete_in-mem_key ks w q ok =
      ap (λ f. f q) (Carried-true (batch_delete_in-Carried b laws db ks w) ok)
      ∙ replay-mem_key ks (laws.contents w db) q
