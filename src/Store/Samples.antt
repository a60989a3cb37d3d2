-- ===== src/Store/Samples.antt =====
-- A small badger whose transactions hold two writes, for the tests.
use brokernode.Store.Registry.{Files, OpenStores, opened}
use brokernode.Store.RoundTrip.{shown, AllShown}
use brokernode.Store.Refine.{delete_of, replay-append, set_of}
use brokernode.Store.{Badger, Contents, Laws, Write, Written, replay, too_big, wrote}
use brokernode.Prelude.Bytes.{Bytes, codes}
use brokernode.Prelude.{
  Bool, List, [], false, length, ltb, none, refl, some, true, ℕ, ◌++◌, ◌∷◌, ◌≡◌,
}
use mathlib.Core.Path.{subst}

abbrev after_room : Bool → List Write → Write → Written (List Write)
after_room true t x = wrote (t ++ (x ∷ []))
after_room false t x = too_big

abbrev pub add_write : List Write → Write → Written (List Write)
add_write t x = after_room (ltb (length t) 2) t x

abbrev pub never : Contents
never = λ q. none

-- The world is the log of all writes; there is one store, whichever the handle.
abbrev pub small_badger : Badger (List Write) ℕ (List Write)
small_badger = record {
  new_transaction = λ w db. [];
  set_with_ttl = λ t k v ttl. add_write t (set_of ttl (k, v));
  delete = λ t k. add_write t (delete_of k);
  commit = λ w db t. some (w ++ t);
  get = λ w db k. shown (replay w never k);
}

pub room_kept :
    (room : Bool) (t t' : List Write) (x : Write)
    → after_room room t x ≡ wrote t'
    → t' ≡ t ++ (x ∷ [])
room_kept true t t' x e = cc
room_kept false t t' x e = absurd cc

pub some_log : (x y : List Write) → some x ≡ some y → x ≡ y
some_log x y e = cc

abbrev pub small_laws : Laws small_badger
small_laws = record {
  contents = λ w db. replay w never;
  writes = λ t. t;
  of_new_transaction = λ w db. refl;
  of_set = λ t t' k v ttl e. room_kept (ltb (length t) 2) t t' (set_of ttl (k, v)) e;
  of_delete = λ t t' k e. room_kept (ltb (length t) 2) t t' (delete_of k) e;
  of_commit = λ w w' db t e.
      subst (λ l. replay l never ≡ replay t (replay w never)) (some_log (w ++ t) w' e)
        (replay-append w t never);
}

abbrev pub three_pairs : List (Bytes × Bytes)
three_pairs = (codes "a", codes "x") ∷ (codes "b", codes "y") ∷ (codes "c", codes "z") ∷ []

-- A file system that opens every store, as the handle 7.
abbrev pub small_files : Files (List Write) ℕ
small_files = record {
  under_test = false;
  badger_dir_test = codes "/tmp/badger";
  make_dir = λ w dir. w;
  open_db = λ w dir. (opened 7, w);
  close_db = λ w db. (true, w);
  remove_all = λ w dir. (true, w);
  sleep = λ s. s;
}

abbrev pub no_stores : OpenStores (List Write) ℕ
no_stores = record { db_map = []; badger_db = none; world = [] }

-- Entries of the small badger never expire.
pub all_shown : (w : List Write) (db : ℕ) → AllShown small_laws w db
all_shown w db k = refl
