-- ===== src/Store.antt =====
-- utils/kv_store.go: the stores themselves. Badger is an interface: a world in which a handle's store
-- has contents, and transactions that collect writes until they are committed. What the library documents
-- of them is a record of laws, which the theorems take as a parameter. A map that a loop ranges over is
-- the list of its pairs in the order in which that run takes them.
pub mod Refine
pub mod Pairs
pub mod Agree
pub mod RoundTrip
pub mod Registry
pub mod Samples
mod Tests
use brokernode.Prelude.Bytes.{Bytes, bytes_eq, is_empty}
use brokernode.Prelude.{
  ◌^◌, Bool, List, Option, [], false, if◌then◌else◌, none, some, true, ℕ, ◌*◌, ◌++◌, ◌∷◌, ◌≡◌,
}

-- What badger keeps for a key, and with which time to live.
pub record Entry : Type 0 where
  pub value : Bytes
  pub ttl : ℕ

-- A write to a store: a key and its new entry, or none where it is deleted.
pub record Write : Type 0 where
  pub key : Bytes
  pub entry : Option Entry

-- A store as a function.
abbrev pub Contents : Type 0
Contents = Bytes → Option Entry

abbrev pub put_entry : Contents → Bytes → Option Entry → Contents
put_entry f k e q = if bytes_eq k q then e else f q

abbrev pub replay : List Write → Contents → Contents
replay [] f = f
replay (w ∷ ws) f = replay ws (put_entry f w.key w.entry)

-- The answers of badger to SetWithTTL or Delete, and to Get with Value.
pub data Written (Txn : Type 0) : Type 0 where
  wrote : Txn → Written Txn
  too_big : Written Txn
  refused : Written Txn

pub data Got : Type 0 where
  found : Bytes → Got
  missing : Got
  unreadable : Got

-- (*kvs)[k] = v
abbrev pub put_pair : Bytes → Bytes → List (Bytes × Bytes) → List (Bytes × Bytes)
put_pair k v [] = (k, v) ∷ []
put_pair k v ((k', v') ∷ kvs) =
    let rest = put_pair k v kvs in if bytes_eq k' k then (k, v) ∷ kvs else (k', v') ∷ rest

pub record Badger (World : Type 0) (Db : Type 0) (Txn : Type 0) : Type 0 where
  pub new_transaction : World → Db → Txn
  pub set_with_ttl : Txn → Bytes → Bytes → ℕ → Written Txn
  pub delete : Txn → Bytes → Written Txn
  pub commit : World → Db → Txn → Option World
  pub get : World → Db → Bytes → Got

-- What badger documents: a transaction collects its writes, and a commit that works carries out all of
-- them, in their order.
pub record Laws {World Db Txn : Type 0} (b : Badger World Db Txn) : Type 0 where
  pub contents : World → Db → Contents
  pub writes : Txn → List Write
  pub of_new_transaction : (w : World) (db : Db) → writes (b.new_transaction w db) ≡ []
  pub of_set :
      (t t' : Txn) (k v : Bytes) (ttl : ℕ)
      → b.set_with_ttl t k v ttl ≡ wrote t'
      → writes t'
        ≡ writes t ++ (record { key = k; entry = some (record { value = v; ttl = ttl }) } ∷ [])
  pub of_delete :
      (t t' : Txn) (k : Bytes)
      → b.delete t k ≡ wrote t'
      → writes t' ≡ writes t ++ (record { key = k; entry = none } ∷ [])
  pub of_commit :
      (w w' : World) (db : Db) (t : Txn)
      → b.commit w db t ≡ some w'
      → contents w' db ≡ replay (writes t) (contents w db)

module _ {World Db Txn : Type 0} (b : Badger World Db Txn) where
  -- The loop of the batched writes, and the commit behind it: whether it had no error, and the world
  -- after it. `put` is the body's first call.
  abbrev committed : World → Option World → Bool × World
  committed w none = (false, w)
  committed w (some w') = (true, w')

  abbrev pub put_again : {A : Type 0} → (Txn → A → Written Txn) → Db → World → A → Written Txn
  put_again put db w a = put (b.new_transaction w db) a

  abbrev pub resume : World → Written Txn → (World → Txn → Bool × World) → Bool × World
  resume w (wrote t) rest = rest w t
  resume w too_big rest = (false, w)
  resume w refused rest = (false, w)

  abbrev pub on_put :
      World
      → Option World
      → Written Txn
      → (World → Written Txn)
      → (World → Txn → Bool × World)
      → Bool × World
  on_put w full (wrote t) again rest = rest w t
  on_put w none too_big again rest = (false, w)
  on_put w (some w') too_big again rest = resume w' (again w') rest
  on_put w full refused again rest = (false, w)

  unfoldable pub write_all :
      {A : Type 0} → (Txn → A → Written Txn) → Db → List A → World → Txn → Bool × World
  write_all put db [] w t = committed w (b.commit w db t)
  write_all put db (a ∷ rest) w t =
      on_put w (b.commit w db t) (put t a) (λ w'. put_again put db w' a)
        (λ w' t'. write_all put db rest w' t')

  -- The body of BatchSet and of BatchSetToUniqueDB, which do not accept an empty key.
  unfoldable pub set_pair : ℕ → Txn → Bytes × Bytes → Written Txn
  set_pair ttl t pair =
      let (k, v) = pair in if is_empty k then refused else b.set_with_ttl t k v ttl

  unfoldable pub batch_set_in : Db → List (Bytes × Bytes) → ℕ → World → Bool × World
  unfolding write_all set_pair
  batch_set_in db kvs ttl w = write_all (set_pair ttl) db kvs w (b.new_transaction w db)

  -- The body of BatchDelete and of BatchDeleteFromUniqueDB.
  unfoldable pub batch_delete_in : Db → List Bytes → World → Bool × World
  unfolding write_all
  batch_delete_in db ks w = write_all b.delete db ks w (b.new_transaction w db)

  -- The body of BatchGet and of BatchGetFromUniqueDB: whether it had no error, and the pairs that it has
  -- found. Get gives no nil item without an error.
  unfoldable pub get_loop :
      World → Db → List Bytes → List (Bytes × Bytes) → Bool × List (Bytes × Bytes)
  get_loop w db [] kvs = (true, kvs)
  get_loop w db (k ∷ ks) kvs =
      let skipped = get_loop w db ks kvs in
      let read : Bool × List (Bytes × Bytes) = elim (b.get w db k) [
        | found v ↦ get_loop w db ks (put_pair k v kvs)
        | missing ↦ skipped
        | unreadable ↦ (false, kvs)
      ] in
      if is_empty k then skipped else read

-- getTTL: whether the program is under test, and the value that is asked for, in nanoseconds.
abbrev pub test_value_time_to_live : ℕ
test_value_time_to_live = 3 * 60 * 10 ^ 9

unfoldable pub get_ttl : Bool → ℕ → ℕ
get_ttl test ttl = if test then test_value_time_to_live else ttl
