-- ===== src/Unused/Job/Moves/Waiting.antt =====
-- jobs/claim_unused_prls.go: the uploads that the brokers still pay for.
use brokernode.Unused.Job.Moves.Invariants.{Any-map, is_not, or_false, or_left}
use brokernode.Utils.Mode.{BrokerMode, PaymentMode}
use brokernode.Unused.Job.Moves.Run.{claim_unused_prls-Kept}
use brokernode.Unused.Job.{claim_unused_prls}
use brokernode.Prelude.Table.{Any, From-self}
use brokernode.Prelude.Int.{eqb_ℤ, ℤ}
use brokernode.Prelude.{
  All, Bool, List, arith, false, not, refl, sym, true, ℕ, ◌&&◌, ◌||◌, ◌≡◌, All-map, [], ◌∙◌, ◌∷◌,
}
use brokernode.Unused.{
  CompletedUpload, UnusedServices, Uploads, gas_is, gas_transfer_failed, gas_transfer_not_started,
  gas_transfer_processing, gas_transfer_success, leftovers_reclaim_processing, prl_claim_error,
  prl_claim_not_started, prl_claim_processing, prl_is, still_processing,
}
use brokernode.Unused.Job.Moves.{
  UploadStep, gas_arrived, prl_retrieved, leftovers_back, reclaim_again, gas_sent_first,
  gas_sent_again, gas_sent_after_error, prl_sent_first, prl_sent_again, prl_sent_after_error,
  reclaim_started, reclaim_failed, given_up, Sends,
}
use mathlib.Core.Path.{subst}

-- A row with the genesis hash and the address of another.
abbrev SameUpload : CompletedUpload → CompletedUpload → Type 0
SameUpload r t = (r.genesis_hash ≡ t.genesis_hash) × (r.eth_addr ≡ t.eth_addr)

step-SameUpload :
    {Chain : Type 0} (gw : UnusedServices Chain) (r t u : CompletedUpload)
    → UploadStep gw t u
    → SameUpload r t
    → SameUpload r u
step-SameUpload gw r t u (gas_arrived g) h = h
step-SameUpload gw r t u (prl_retrieved p) h = h
step-SameUpload gw r t u (leftovers_back g) h = h
step-SameUpload gw r t u (reclaim_again g) h = h
step-SameUpload gw r t u (gas_sent_first sent g free) h = h
step-SameUpload gw r t u (gas_sent_again sent g) h = h
step-SameUpload gw r t u (gas_sent_after_error sent g) h = h
step-SameUpload gw r t u (prl_sent_first sent g p) h = h
step-SameUpload gw r t u (prl_sent_again sent p) h = h
step-SameUpload gw r t u (prl_sent_after_error sent p) h = h
step-SameUpload gw r t u (reclaim_started g p) h = h
step-SameUpload gw r t u (reclaim_failed g p) h = h
step-SameUpload gw r t u (given_up g p) h = h

-- Transfers one after the other, each with the address of a row whose upload the brokers do not pay for.
pub data Transfers {Chain : Type 0} (gw : UnusedServices Chain) (rows : List CompletedUpload)
    : Chain → Chain → Type 0 where
  no_transfer : {c : Chain} → Transfers gw rows c c
  then_transfer :
      {c d e : Chain}
      → Transfers gw rows c d
      → Any (λ r. (still_processing gw r ≡ false) × Sends gw r.eth_addr d e) rows
      → Transfers gw rows c e

All-both :
    {A : Type 0} (P Q : A → Type 0) (xs : List A) → All P xs → All Q xs → All (λ x. P x × Q x) xs
All-both P Q [] h k = tt
All-both P Q (x ∷ xs) h k = ((h.0, k.0), All-both P Q xs h.1 k.1)

module _ {Chain : Type 0} (gw : UnusedServices Chain) where
  -- Nothing has been started for a row whose upload the brokers still pay for.
  abbrev pub Waits : CompletedUpload → Type 0
  Waits t =
      (not (still_processing gw t)
        || (gas_is gas_transfer_not_started t && prl_is prl_claim_not_started t))
      ≡ true

  and_left : (a b : Bool) → a ≡ false → (a && b) ≡ false
  and_left a b h = ground arith

  and_right : (a b : Bool) → b ≡ false → (a && b) ≡ false
  and_right a b h = ground arith

  gas_begun :
      (t : CompletedUpload) (g : ℤ)
      → Waits t
      → gas_is g t ≡ true
      → eqb_ℤ g gas_transfer_not_started ≡ false
      → still_processing gw t ≡ false
  gas_begun t g w h ne = or_false (still_processing gw t) _ w (
      and_left (gas_is gas_transfer_not_started t) (prl_is prl_claim_not_started t)
        (is_not t.gas_status g gas_transfer_not_started h ne))

  prl_begun :
      (t : CompletedUpload) (p : ℤ)
      → Waits t
      → prl_is p t ≡ true
      → eqb_ℤ p prl_claim_not_started ≡ false
      → still_processing gw t ≡ false
  prl_begun t p w h ne = or_false (still_processing gw t) _ w (
      and_right (gas_is gas_transfer_not_started t) (prl_is prl_claim_not_started t)
        (is_not t.prl_status p prl_claim_not_started h ne))

  -- A step starts from a row that the brokers no longer pay for, and keeps its genesis hash.
  step-free : (t u : CompletedUpload) → UploadStep gw t u → Waits t → still_processing gw u ≡ false
  unfolding still_processing
  step-free t u (gas_arrived g) w = gas_begun t gas_transfer_processing w g refl
  step-free t u (prl_retrieved p) w = prl_begun t prl_claim_processing w p refl
  step-free t u (leftovers_back g) w = gas_begun t leftovers_reclaim_processing w g refl
  step-free t u (reclaim_again g) w = gas_begun t leftovers_reclaim_processing w g refl
  step-free t u (gas_sent_first sent g free) w = free
  step-free t u (gas_sent_again sent g) w = gas_begun t gas_transfer_processing w g refl
  step-free t u (gas_sent_after_error sent g) w = gas_begun t gas_transfer_failed w g refl
  step-free t u (prl_sent_first sent g p) w = gas_begun t gas_transfer_success w g refl
  step-free t u (prl_sent_again sent p) w = prl_begun t prl_claim_processing w p refl
  step-free t u (prl_sent_after_error sent p) w = prl_begun t prl_claim_error w p refl
  step-free t u (reclaim_started g p) w = gas_begun t gas_transfer_success w g refl
  step-free t u (reclaim_failed g p) w = gas_begun t gas_transfer_success w g refl
  step-free t u (given_up g p) w = gas_begun t gas_transfer_success w g refl

  still_processing_same :
      (t u : CompletedUpload)
      → t.genesis_hash ≡ u.genesis_hash
      → still_processing gw t ≡ still_processing gw u
  unfolding still_processing
  still_processing_same t u same = rw same refl

  step_start-free :
      (t u : CompletedUpload) → UploadStep gw t u → Waits t → still_processing gw t ≡ false
  step_start-free t u step w =
      still_processing_same t u ((step-SameUpload gw t t u step (refl, refl)).0)
      ∙ step-free t u step w

  -- A transfer for a row is one for the row of the table that it comes from.
  address_of_row :
      (rows : List CompletedUpload) (t : CompletedUpload) (c d : Chain)
      → still_processing gw t ≡ false
      → Sends gw t.eth_addr c d
      → Any (λ r. SameUpload r t) rows
      → Any (λ r. (still_processing gw r ≡ false) × Sends gw r.eth_addr c d) rows
  address_of_row rows t c d free sent h =
      Any-map (λ r. SameUpload r t) (λ r. (still_processing gw r ≡ false) × Sends gw r.eth_addr c d)
        rows
        (λ r same.
          (still_processing_same r t same.0 ∙ free, subst (λ a. Sends gw a c d) (sym same.1) sent))
        h

  -- Where nothing has been started for any row whose genesis hash still has a transaction between the
  -- brokers, as the query for them answers, that holds again after ClaimUnusedPRLs; and whatever the run did
  -- on the chain is a sequence of sending gas to, claiming the PRL of, and fetching gas back from the
  -- addresses of rows of the table whose genesis hash has no such transaction.
  pub claim_unused_prls-Waits :
      (mode : BrokerMode) (payment : PaymentMode) (threshold_time : ℕ) (s : Uploads gw)
      → All Waits s.rows
      → All Waits (claim_unused_prls gw mode payment threshold_time s).rows
        × Transfers gw s.rows s.chain (claim_unused_prls gw mode payment threshold_time s).chain
  claim_unused_prls-Waits mode payment threshold_time s h =
      let kept =
        claim_unused_prls-Kept gw (λ t. Waits t × Any (λ r. SameUpload r t) s.rows)
          (Transfers gw s.rows s.chain)
          (λ t u step k. (
            or_left (still_processing gw u) _ (step-free t u step k.0),
            Any-map (λ r. SameUpload r t) (λ r. SameUpload r u) s.rows
                (λ r. step-SameUpload gw r t u step) k.1,
          ))
          (λ t u c d step sent k before.
            then_transfer before
              (address_of_row s.rows t c d (step_start-free t u step k.0) sent k.1))
          mode payment threshold_time s
          (record {
            held = All-both Waits _ s.rows h (From-self SameUpload s.rows (λ t. (refl, refl)));
            chain_held = no_transfer;
          }) in
      (All-map _ _ _ (λ t k. k.0) kept.held, kept.chain_held)
