-- ===== src/Payments/Jobs/Moves.antt =====
-- jobs/check_alpha_payments.go and jobs/check_beta_payments.go: which payment statuses a run of a
-- job can lead a row from and to.
pub mod Graph
pub mod Beta
use brokernode.Prelude.{
  ℕ, ◌≡◌, refl, sym, ◌∙◌, Bool, true, false, ◌&&◌, List, [], ◌∷◌, ◌++◌, inl, inr, Bool-cases, All,
  All-append, All-map, if◌then◌else◌,
}
use brokernode.Prelude.Int.{ℤ, pos, negsuc, eqb_ℤ, eqb_ℤ_iff}
use brokernode.Prelude.Table.{
  Any, here, there, keep, save_row, for_each, All-keep, All-save_row, for_each-keeps, From,
}
use brokernode.Payments.{
  BrokerTx, State, World, query_loop, with_status, save, set_upload_session_to_paid,
}
use brokernode.Payments.Jobs.{is_alpha_tx}

-- A relation between the statuses before and after a move, for alpha's rows and for the others.
abbrev pub Edges : Type 1
Edges = Bool → ℤ → ℤ → Type 0

-- Any number of moves.
pub data Leads (E : Edges) (alpha : Bool) (a : ℤ) : ℤ → Type 0 where
  stays : Leads E alpha a a
  moves : {b c : ℤ} → Leads E alpha a b → E alpha b c → Leads E alpha a c

pub Leads-trans :
    {E : Edges} {alpha : Bool} {a b c : ℤ}
    → Leads E alpha a b
    → Leads E alpha b c
    → Leads E alpha a c
Leads-trans h stays = h
Leads-trans h (moves k e) = moves (Leads-trans h k) e

-- A row after a job: only the status has moved, along edges, and the time stamp.
pub record Moved (E : Edges) (t u : BrokerTx) : Type 0 where
  pub id : t.id ≡ u.id
  pub genesis_hash : t.genesis_hash ≡ u.genesis_hash
  pub type : t.type ≡ u.type
  pub eth_addr_alpha : t.eth_addr_alpha ≡ u.eth_addr_alpha
  pub eth_addr_beta : t.eth_addr_beta ≡ u.eth_addr_beta
  pub eth_private_key : t.eth_private_key ≡ u.eth_private_key
  pub total_cost : t.total_cost ≡ u.total_cost
  pub status : Leads E (is_alpha_tx t) t.payment_status u.payment_status

pub Moved-refl : {E : Edges} (t : BrokerTx) → Moved E t t
Moved-refl t = record {
  id = refl;
  genesis_hash = refl;
  type = refl;
  eth_addr_alpha = refl;
  eth_addr_beta = refl;
  eth_private_key = refl;
  total_cost = refl;
  status = stays;
}

pub Moved-trans : {E : Edges} (t u v : BrokerTx) → Moved E t u → Moved E u v → Moved E t v
Moved-trans {E = E} t u v h k =
    let same_side : is_alpha_tx u ≡ is_alpha_tx t = rw h.type refl in
    let onward : Leads E (is_alpha_tx t) u.payment_status v.payment_status =
      rw (sym same_side) k.status in
    record {
      id = h.id ∙ k.id;
      genesis_hash = h.genesis_hash ∙ k.genesis_hash;
      type = h.type ∙ k.type;
      eth_addr_alpha = h.eth_addr_alpha ∙ k.eth_addr_alpha;
      eth_addr_beta = h.eth_addr_beta ∙ k.eth_addr_beta;
      eth_private_key = h.eth_private_key ∙ k.eth_private_key;
      total_cost = h.total_cost ∙ k.total_cost;
      status = Leads-trans h.status onward;
    }

module _ (E : Edges) (base : List BrokerTx) where
  -- The rows of the table come from `base`.
  pub record Kept {Chain : Type 0} (st : State Chain) : Type 0 where
    pub rows : From (Moved E) base st.txs

  abbrev pub Origin : BrokerTx → Type 0
  Origin t = Any (λ x. Moved E x t) base

  pub step_on :
      (t u : BrokerTx) (xs : List BrokerTx)
      → Moved E t u
      → Any (λ x. Moved E x t) xs
      → Any (λ x. Moved E x u) xs
  step_on t u xs m (here {x = x} h) = here (Moved-trans x t u h m)
  step_on t u xs m (there {xs = rest} h) = there (step_on t u rest m h)

module _ {Chain : Type 0} (w : World Chain) where
  -- What the query's tests give holds of all the rows it answers.
  pub query_loop-All :
      (P Q : BrokerTx → Type 0) (matches : ℤ → BrokerTx → Bool) (ss : List ℤ)
      (found rows : List BrokerTx)
      → All (λ s. (t : BrokerTx) → P t → matches s t ≡ true → Q t) ss
      → All P rows
      → All Q found
      → All Q (query_loop w matches ss found rows)
  unfolding query_loop
  query_loop-All P Q matches [] found rows f h k = k
  query_loop-All P Q matches (s ∷ ss) found rows f h k =
      let here_too : All Q (keep (matches s) rows) =
        All-map _ _ (keep (matches s) rows) (λ t both. f.0 t both.0 both.1)
          (All-keep P (matches s) rows h) in
      let rest =
        query_loop-All P Q matches ss (found ++ keep (matches s) rows) rows f.1 h
          (All-append Q found (keep (matches s) rows) k here_too) in
      elim (Bool-cases (w.query_works s)) [ inl works ↦ rw works rest | inr fails ↦ rw fails tt ]

  module _ (E : Edges) (base : List BrokerTx) where
    -- Saving a row along an edge.
    pub save-Kept :
        (t : BrokerTx) (s : ℤ) (st : State Chain)
        → Origin E base t
        → E (is_alpha_tx t) t.payment_status s
        → Kept E base st
        → Kept E base (save w t s st).1
    unfolding save with_status
    save-Kept t s st o e k =
        let new =
          step_on E base t (with_status w s t) base
            (record {
              id = refl;
              genesis_hash = refl;
              type = refl;
              eth_addr_alpha = refl;
              eth_addr_beta = refl;
              eth_private_key = refl;
              total_cost = refl;
              status = moves stays e;
            })
            o in
        elim (Bool-cases (w.save_works (with_status w s t))) [
          | inl works ↦ rw works (record {
            rows =
                All-save_row (Origin E base) (λ (r : BrokerTx). r.id) (with_status w s t) st.txs new
                  k.rows;
          })
          | inr fails ↦ rw fails k
        ]

    pub paid-Kept :
        (t : BrokerTx) (st : State Chain)
        → Kept E base st
        → Kept E base (set_upload_session_to_paid w t st)
    unfolding set_upload_session_to_paid
    paid-Kept t st k = elim (Bool-cases (w.paid_works t)) [
      | inl works ↦ rw works (record { rows = k.rows })
      | inr fails ↦ rw fails k
    ]
