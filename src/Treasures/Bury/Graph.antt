-- ===== src/Treasures/Bury/Graph.antt =====
-- jobs/bury_treasure_addresses.go: the graph of burial statuses, and what a write to the table keeps.
pub mod Steps
pub mod Run
use brokernode.Prelude.{
  ℕ, ◌≡◌, refl, ◌∙◌, Bool, true, false, List, [], ◌∷◌, ◌++◌, inl, inr, Bool-cases, Option, none,
  some, All, All-append, All-map, take, zero, suc, if◌then◌else◌, map,
}
use brokernode.Prelude.Int.{ℤ}
use brokernode.Prelude.Bytes.{Bytes}
use brokernode.Prelude.Table.{
  Any, here, there, keep, for_each, All-keep, All-save_row, for_each-keeps, From,
}
use brokernode.Treasures.{
  Treasure, Burial, Services, status_loop, stamped, update, set_to_treasure_buried,
  max_num_simultaneous_treasure_txs, prl_waiting, prl_pending, prl_confirmed, gas_pending,
  gas_confirmed, bury_pending, bury_confirmed, gas_reclaim_pending, gas_reclaim_confirmed,
  prl_error, gas_error, bury_error, gas_reclaim_error,
}
use brokernode.Treasures.Bury.{over}

-- The moves of a treasure's status in one run of the job.
pub data Edge : ℤ → ℤ → Type 0 where
  prl_sent : Edge prl_waiting prl_pending
  prl_unsent : Edge prl_waiting prl_error
  prl_seen : Edge prl_pending prl_confirmed
  prl_late : Edge prl_pending prl_error
  prl_retry : Edge prl_error prl_waiting
  gas_sent : Edge prl_confirmed gas_pending
  gas_unsent : Edge prl_confirmed gas_error
  gas_seen : Edge gas_pending gas_confirmed
  gas_late : Edge gas_pending gas_error
  gas_retry : Edge gas_error prl_confirmed
  bury_sent : Edge gas_confirmed bury_pending
  bury_unsent : Edge gas_confirmed bury_error
  bury_seen : Edge bury_pending bury_confirmed
  bury_late : Edge bury_pending bury_error
  bury_retry : Edge bury_error gas_confirmed
  reclaim_sent : Edge bury_confirmed gas_reclaim_pending
  reclaim_unsent : Edge bury_confirmed gas_reclaim_error
  reclaim_given_up : Edge bury_confirmed gas_reclaim_confirmed
  reclaim_done : Edge gas_reclaim_pending gas_reclaim_confirmed
  reclaim_late : Edge gas_reclaim_pending gas_reclaim_error
  reclaim_retry : Edge gas_reclaim_error bury_confirmed

-- Any number of moves.
pub data Leads (a : ℤ) : ℤ → Type 0 where
  stays : Leads a a
  moves : {b c : ℤ} → Leads a b → Edge b c → Leads a c

pub Leads-trans : {a b c : ℤ} → Leads a b → Leads b c → Leads a c
Leads-trans h stays = h
Leads-trans h (moves k e) = moves (Leads-trans h k) e

-- A treasure after the job: what it is worth, where and for which upload has not changed.
pub record Moved (t u : Treasure) : Type 0 where
  pub id : t.id ≡ u.id
  pub eth_addr : t.eth_addr ≡ u.eth_addr
  pub eth_key : t.eth_key ≡ u.eth_key
  pub prl_amount : t.prl_amount ≡ u.prl_amount
  pub genesis_hash : t.genesis_hash ≡ u.genesis_hash
  pub signed_status : t.signed_status ≡ u.signed_status
  pub status : Leads t.prl_status u.prl_status

pub Moved-refl : (t : Treasure) → Moved t t
Moved-refl t = record {
  id = refl;
  eth_addr = refl;
  eth_key = refl;
  prl_amount = refl;
  genesis_hash = refl;
  signed_status = refl;
  status = stays;
}

pub Moved-trans : (t u v : Treasure) → Moved t u → Moved u v → Moved t v
Moved-trans t u v h k = record {
  id = h.id ∙ k.id;
  eth_addr = h.eth_addr ∙ k.eth_addr;
  eth_key = h.eth_key ∙ k.eth_key;
  prl_amount = h.prl_amount ∙ k.prl_amount;
  genesis_hash = h.genesis_hash ∙ k.genesis_hash;
  signed_status = h.signed_status ∙ k.signed_status;
  status = Leads-trans h.status k.status;
}

All-take : (P : Treasure → Type 0) (n : ℕ) (xs : List Treasure) → All P xs → All P (take n xs)
All-take P zero xs h = tt
All-take P (suc n) [] h = tt
All-take P (suc n) (x ∷ xs) h = (h.0, All-take P n xs h.1)

module _ (base : List Treasure) where
  abbrev pub Origin : Treasure → Type 0
  Origin t = Any (λ x. Moved x t) base

  -- The table's rows come from `base`.
  pub record Kept {Chain : Type 0} (b : Burial Chain) : Type 0 where
    pub rows : From Moved base b.treasures

  onward :
      (t u : Treasure) (xs : List Treasure)
      → Moved t u
      → Any (λ x. Moved x t) xs
      → Any (λ x. Moved x u) xs
  onward t u xs m (here {x = x} h) = here (Moved-trans x t u h m)
  onward t u xs m (there {xs = rest} h) = there (onward t u rest m h)

  module _ {Chain : Type 0} (sv : Services Chain) where
    pub update-Kept :
        (t u : Treasure) (b : Burial Chain)
        → Origin t
        → Moved t (stamped sv u)
        → Kept b
        → Kept (update sv u b)
    unfolding update
    update-Kept t u b o m k = elim (Bool-cases (sv.update_works (stamped sv u))) [
      | inl works ↦ rw works (record {
        rows =
            All-save_row Origin (λ (r : Treasure). r.id) (stamped sv u) b.treasures
              (onward t (stamped sv u) base m o) k.rows;
      })
      | inr fails ↦ rw fails k
    ]

    pub marked-Kept :
        (hash : Bytes) (b : Burial Chain) → Kept b → Kept (set_to_treasure_buried sv hash b).1
    unfolding set_to_treasure_buried
    marked-Kept hash b k = elim (Bool-cases (sv.stored_works hash)) [
      | inl works ↦ rw works (record { rows = k.rows })
      | inr fails ↦ rw fails k
    ]

    pub if-Kept :
        (test : Bool) (x y : Burial Chain) → Kept x → Kept y → Kept (if test then x else y)
    if-Kept true x y h k = h
    if-Kept false x y h k = k

    -- What a loop over a query keeps, when the tests of the query give Q and the body keeps it.
    pub loop-Kept :
        (Q : Treasure → Type 0) (matches : ℤ → Treasure → Bool) (ss : List ℤ)
        (body : Treasure → Burial Chain → Burial Chain) (b : Burial Chain) (found : List Treasure)
        → All (λ s. (t : Treasure) → matches s t ≡ true → Q t) ss
        → ((t : Treasure) (b : Burial Chain) → Origin t × Q t → Kept b → Kept (body t b))
        → Kept b
        → All (λ t. Origin t × Q t) found
        → Kept (over (status_loop sv matches ss found b.treasures) body b)
    unfolding status_loop
    loop-Kept Q matches [] body b found q f k h =
        for_each-keeps (λ t. Origin t × Q t) Kept body found b f h k
    loop-Kept Q matches (s ∷ ss) body b found q f k h =
        let picked : All (λ t. Origin t × Q t) (keep (matches s) b.treasures) =
          All-map _ _ (keep (matches s) b.treasures) (λ t both. (both.0, q.0 t both.1))
            (All-keep Origin (matches s) b.treasures k.rows) in
        let batch = take max_num_simultaneous_treasure_txs (keep (matches s) b.treasures) in
        let rest = loop-Kept Q matches ss body b (found ++ batch) q.1 f k (
          All-append (λ t. Origin t × Q t) found batch h
            (All-take (λ t. Origin t × Q t) max_num_simultaneous_treasure_txs
              (keep (matches s) b.treasures) picked)) in
        elim (Bool-cases (sv.query_works s)) [ inl works ↦ rw works rest | inr fails ↦ rw fails k ]
