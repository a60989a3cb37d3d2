-- ===== src/Store/Refine.antt =====
-- utils/kv_store.go: the batched writes as writes of a function from keys to entries.
use brokernode.Prelude.Bytes.{Bytes, is_empty}
use brokernode.Prelude.{
  Bool, Bool-cases, List, Option, [], ap, append-nil, append_assoc, arith, false, inl, inr, length,
  map, none, refl, some, suc, sym, take, true, ℕ, ◌++◌, ◌+◌, ◌∙◌, ◌∷◌, ◌≡◌,
}
use brokernode.Store.{
  Badger, Contents, Laws, Write, Written, batch_delete_in, batch_set_in, on_put, put_again, refused,
  replay, set_pair, too_big, put_entry, wrote, committed, resume, write_all,
}
use mathlib.Core.Path.{subst}

pub replay-append :
    (vs ws : List Write) (f : Contents) → replay (vs ++ ws) f ≡ replay ws (replay vs f)
replay-append [] ws f = refl
replay-append (v ∷ vs) ws f = replay-append vs ws (put_entry f v.key v.entry)

-- What a batch of writes leaves: all of them where it had no error, else some first ones.
pub data Carried (ws : List Write) (before after : Contents) : Bool → Type 0 where
  all_of : after ≡ replay ws before → Carried ws before after true
  first_of : (n : ℕ) → after ≡ replay (take n ws) before → Carried ws before after false

nothing_of : (ws : List Write) (f : Contents) → Carried ws f f false
nothing_of ws f = first_of 0 refl

take-append : (vs ws : List Write) (n : ℕ) → take (length vs + n) (vs ++ ws) ≡ vs ++ take n ws
take-append [] ws n = ap (λ k. take k ws) (zero_left n)
  where
    zero_left : (n : ℕ) → 0 + n ≡ n
    zero_left n = omega arith
take-append (v ∷ vs) ws n =
    ap (λ k. take k (v ∷ (vs ++ ws))) (suc_left (length vs) n)
    ∙ ap (λ r. v ∷ r) (take-append vs ws n)
  where
    suc_left : (m n : ℕ) → suc m + n ≡ suc (m + n)
    suc_left m n = omega arith

-- Writes that are carried out before.
Carried-append :
    (vs ws : List Write) {f g h : Contents} {ok : Bool}
    → g ≡ replay vs f
    → Carried ws g h ok
    → Carried (vs ++ ws) f h ok
Carried-append vs ws {f = f} e (all_of r) =
    all_of (r ∙ (ap (replay ws) e ∙ sym (replay-append vs ws f)))
Carried-append vs ws {f = f} e (first_of n r) = first_of (length vs + n) (
    r
    ∙ (ap (replay (take n ws)) e
        ∙ (sym (replay-append vs (take n ws) f)
            ∙ ap (λ l. replay l f) (sym (take-append vs ws n)))))

module _ {World Db Txn A : Type 0} (b : Badger World Db Txn) (laws : Laws b)
    (put : Txn → A → Written Txn) (entry_of : A → Write)
    (puts : (t t' : Txn) (a : A)
      → put t a ≡ wrote t'
      → laws.writes t' ≡ laws.writes t ++ (entry_of a ∷ []))
    (db : Db) where
  -- What is to be carried out from a transaction on.
  abbrev ToCarry : List Write → List A → World → Bool × World → Type 0
  ToCarry vs as' w r =
      Carried (vs ++ map entry_of as') (laws.contents w db) (laws.contents (r.1) db) (r.0)

  abbrev Rest : List A → (World → Txn → Bool × World) → Type 0
  Rest as' rest = (w : World) (t : Txn) → ToCarry (laws.writes t) as' w (rest w t)

  one_more :
      (vs : List Write) (a : A) (as' : List A)
      → (vs ++ (entry_of a ∷ [])) ++ map entry_of as' ≡ vs ++ map entry_of (a ∷ as')
  one_more vs a as' = append_assoc vs (entry_of a ∷ []) (map entry_of as')

  step-Carried :
      (t t' : Txn) (a : A) (as' : List A) (w : World) (rest : World → Txn → Bool × World)
      → put t a ≡ wrote t'
      → Rest as' rest
      → ToCarry (laws.writes t) (a ∷ as') w (rest w t')
  step-Carried t t' a as' w rest e h =
      subst
        (λ ws. Carried ws (laws.contents w db) (laws.contents ((rest w t').1) db) ((rest w t').0))
        (ap (λ ws. ws ++ map entry_of as') (puts t t' a e) ∙ one_more (laws.writes t) a as')
        (h w t')

  resume-Carried :
      (answer : Written Txn) (a : A) (as' : List A) (w : World) (rest : World → Txn → Bool × World)
      → put (b.new_transaction w db) a ≡ answer
      → Rest as' rest
      → ToCarry [] (a ∷ as') w (resume b w answer rest)
  resume-Carried (wrote t) a as' w rest e h =
      subst (λ vs. ToCarry vs (a ∷ as') w (rest w t)) (laws.of_new_transaction w db)
        (step-Carried (b.new_transaction w db) t a as' w rest e h)
  resume-Carried too_big a as' w rest e h = nothing_of _ _
  resume-Carried refused a as' w rest e h = nothing_of _ _

  on_put-Carried :
      (full : Option World) (answer : Written Txn) (a : A) (as' : List A) (w : World) (t : Txn)
      (rest : World → Txn → Bool × World)
      → b.commit w db t ≡ full
      → put t a ≡ answer
      → Rest as' rest
      → ToCarry
          (laws.writes t)
          (a ∷ as')
          w
          (on_put b w full answer (λ w'. put_again b put db w' a) rest)
  on_put-Carried full (wrote t') a as' w t rest c e h = step-Carried t t' a as' w rest e h
  on_put-Carried none too_big a as' w t rest c e h = nothing_of _ _
  on_put-Carried (some w') too_big a as' w t rest c e h =
      Carried-append (laws.writes t) (map entry_of (a ∷ as')) (laws.of_commit w w' db t c)
        (resume-Carried (put (b.new_transaction w' db) a) a as' w' rest refl h)
  on_put-Carried full refused a as' w t rest c e h = nothing_of _ _

  commit-Carried :
      (full : Option World) (w : World) (t : Txn)
      → b.commit w db t ≡ full
      → ToCarry (laws.writes t) [] w (committed b w full)
  commit-Carried none w t c = nothing_of _ _
  commit-Carried (some w') w t c = all_of (
      laws.of_commit w w' db t c
      ∙ ap (λ ws. replay ws (laws.contents w db)) (sym (append-nil (laws.writes t))))

  pub batch-Carried :
      (as' : List A) (w : World) (t : Txn)
      → ToCarry (laws.writes t) as' w (write_all b put db as' w t)
  unfolding write_all
  batch-Carried [] w t = commit-Carried (b.commit w db t) w t refl
  batch-Carried (a ∷ as') w t =
      on_put-Carried (b.commit w db t) (put t a) a as' w t (write_all b put db as') refl refl
        (batch-Carried as')

  -- From a new transaction.
  pub batch_new-Carried :
      (as' : List A) (w : World)
      → Carried
          (map entry_of as')
          (laws.contents w db)
          (laws.contents ((write_all b put db as' w (b.new_transaction w db)).1) db)
          ((write_all b put db as' w (b.new_transaction w db)).0)
  batch_new-Carried as' w =
      subst (λ vs. ToCarry vs as' w (write_all b put db as' w (b.new_transaction w db)))
        (laws.of_new_transaction w db) (batch-Carried as' w (b.new_transaction w db))

abbrev pub set_of : ℕ → Bytes × Bytes → Write
set_of ttl pair = record { key = pair.0; entry = some (record { value = pair.1; ttl = ttl }) }

abbrev pub delete_of : Bytes → Write
delete_of k = record { key = k; entry = none }

module _ {World Db Txn : Type 0} (b : Badger World Db Txn) (laws : Laws b) (db : Db) where
  set_pair-writes :
      (ttl : ℕ) (t t' : Txn) (a : Bytes × Bytes)
      → set_pair b ttl t a ≡ wrote t'
      → laws.writes t' ≡ laws.writes t ++ (set_of ttl a ∷ [])
  unfolding set_pair
  set_pair-writes ttl t t' (k, v) e = elim (Bool-cases (is_empty k)) [
    | inl empty ↦ let f : refused ≡ wrote t' = rw (empty, set_pair) at e in absurd (cc)
    | inr full ↦
        let f : b.set_with_ttl t k v ttl ≡ wrote t' = rw (full, set_pair) at e in
        laws.of_set t t' k v ttl f
  ]

  -- With what badger documents of its transactions, the batched write of pairs leaves the store with all
  -- of the pairs written, one after the other, where it reports no error, however often it has to commit on
  -- its way; where it reports one, with the first n of them, for some n, and nothing else.
  pub batch_set_in-Carried :
      (kvs : List (Bytes × Bytes)) (ttl : ℕ) (w : World)
      → Carried
          (map (set_of ttl) kvs)
          (laws.contents w db)
          (laws.contents ((batch_set_in b db kvs ttl w).1) db)
          ((batch_set_in b db kvs ttl w).0)
  unfolding batch_set_in
  batch_set_in-Carried kvs ttl w =
      batch_new-Carried b laws (set_pair b ttl) (set_of ttl) (set_pair-writes ttl) db kvs w

  -- The same of the batched deletion of keys.
  pub batch_delete_in-Carried :
      (ks : List Bytes) (w : World)
      → Carried
          (map delete_of ks)
          (laws.contents w db)
          (laws.contents ((batch_delete_in b db ks w).1) db)
          ((batch_delete_in b db ks w).0)
  unfolding batch_delete_in
  batch_delete_in-Carried ks w = batch_new-Carried b laws b.delete delete_of laws.of_delete db ks w
