-- ===== src/Unused/Job/Moves/Invariants.antt =====
-- jobs/claim_unused_prls.go: where the rows of a run come from, and an invariant of them.
use brokernode.Utils.Mode.{BrokerMode, PaymentMode}
use brokernode.Unused.Job.Moves.Run.{claim_unused_prls-Kept}
use brokernode.Unused.Job.{claim_unused_prls, prl_on_its_way}
use brokernode.Prelude.Table.{Any, From, From-self, here, there}
use brokernode.Prelude.Int.{eqb_ℤ, eqb_ℤ_iff, ℤ}
use brokernode.Prelude.Bytes.{Bytes}
use brokernode.Prelude.{All, Bool, List, arith, false, not, refl, sym, true, ℕ, ◌||◌, ◌≡◌}
use brokernode.Unused.{
  CompletedUpload, UnusedServices, Uploads, gas_is, gas_transfer_success, leftovers_reclaim_error,
  leftovers_reclaim_processing, leftovers_reclaim_success, prl_claim_error, prl_claim_processing,
  prl_claim_success, prl_is,
}
use brokernode.Unused.Job.Moves.{
  UploadStep, gas_arrived, prl_retrieved, leftovers_back, reclaim_again, gas_sent_first,
  gas_sent_again, gas_sent_after_error, prl_sent_first, prl_sent_again, prl_sent_after_error,
  reclaim_started, reclaim_failed, given_up, written_at,
}
use mathlib.Core.Path.{subst}

-- Steps one after the other.
pub data UploadSteps {Chain : Type 0} (gw : UnusedServices Chain)
    : CompletedUpload → CompletedUpload → Type 0 where
  stays : {t : CompletedUpload} → UploadSteps gw t t
  then_steps :
      {t u v : CompletedUpload} → UploadSteps gw t u → UploadStep gw u v → UploadSteps gw t v

pub Any-map :
    {A : Type 0} (P Q : A → Type 0) (xs : List A) → ((x : A) → P x → Q x) → Any P xs → Any Q xs
Any-map P Q xs f (here {x = x} h) = here (f x h)
Any-map P Q xs f (there {xs = rest} h) = there (Any-map P Q rest f h)

-- The statuses of fetching gas back.
abbrev pub gas_goes_back : CompletedUpload → Bool
gas_goes_back t =
    gas_is leftovers_reclaim_processing t
    || (gas_is leftovers_reclaim_success t || gas_is leftovers_reclaim_error t)

-- A row whose gas is being fetched back, or has been, has its PRL retrieved.
abbrev pub Retrieved : CompletedUpload → Type 0
Retrieved t = (not (gas_goes_back t) || prl_is prl_claim_success t) ≡ true

pub is_not : (a m n : ℤ) → eqb_ℤ a m ≡ true → eqb_ℤ m n ≡ false → eqb_ℤ a n ≡ false
is_not a m n h ne = subst (λ z. eqb_ℤ z n ≡ false) (sym ((eqb_ℤ_iff a m).0 h)) ne

pub or_false : (a b : Bool) → (not a || b) ≡ true → b ≡ false → a ≡ false
or_false a b h e = ground arith

or_true : (a b : Bool) → b ≡ true → (not a || b) ≡ true
or_true a b e = ground arith

pub or_left : (a b : Bool) → a ≡ false → (not a || b) ≡ true
or_left a b e = ground arith

or_forced : (a b : Bool) → a ≡ true → (not a || b) ≡ true → b ≡ true
or_forced a b e h = ground arith

neither : (a b c : Bool) → a ≡ false → b ≡ false → c ≡ false → (a || (b || c)) ≡ false
neither a b c ha hb hc = ground arith

first_of_or : (a b c : Bool) → a ≡ true → (a || (b || c)) ≡ true
first_of_or a b c ha = ground arith

-- A row with the status GasTransferSuccess is not fetching its gas back.
with_gas_stays :
    (t : CompletedUpload) → gas_is gas_transfer_success t ≡ true → gas_goes_back t ≡ false
with_gas_stays t h =
    neither (gas_is leftovers_reclaim_processing t) (gas_is leftovers_reclaim_success t)
      (gas_is leftovers_reclaim_error t)
      (is_not t.gas_status gas_transfer_success leftovers_reclaim_processing h refl)
      (is_not t.gas_status gas_transfer_success leftovers_reclaim_success h refl)
      (is_not t.gas_status gas_transfer_success leftovers_reclaim_error h refl)

module _ {Chain : Type 0} (gw : UnusedServices Chain) where
  -- A new claim of PRL, for a row that is not fetching its gas back.
  sent-Retrieved :
      (t : CompletedUpload) (sent : Bytes × ℤ)
      → gas_goes_back t ≡ false
      → Retrieved (written_at gw.now (prl_on_its_way gw t sent))
  sent-Retrieved t sent h = or_left (gas_goes_back t) _ h

  unclaimed :
      (t : CompletedUpload) (p : ℤ)
      → Retrieved t
      → prl_is p t ≡ true
      → eqb_ℤ p prl_claim_success ≡ false
      → gas_goes_back t ≡ false
  unclaimed t p r h ne =
      or_false (gas_goes_back t) (prl_is prl_claim_success t) r
        (is_not t.prl_status p prl_claim_success h ne)

  step-Retrieved : (t u : CompletedUpload) → UploadStep gw t u → Retrieved t → Retrieved u
  step-Retrieved t u (gas_arrived g) r = refl
  step-Retrieved t u (prl_retrieved p) r = or_true (gas_goes_back t) true refl
  step-Retrieved t u (leftovers_back g) r =
      or_forced (gas_goes_back t) (prl_is prl_claim_success t)
        (first_of_or (gas_is leftovers_reclaim_processing t) (gas_is leftovers_reclaim_success t)
          (gas_is leftovers_reclaim_error t) g)
        r
  step-Retrieved t u (reclaim_again g) r = refl
  step-Retrieved t u (gas_sent_first sent g free) r = refl
  step-Retrieved t u (gas_sent_again sent g) r = refl
  step-Retrieved t u (gas_sent_after_error sent g) r = refl
  step-Retrieved t u (prl_sent_first sent g p) r = sent-Retrieved t sent (with_gas_stays t g)
  step-Retrieved t u (prl_sent_again sent p) r =
      sent-Retrieved t sent (unclaimed t prl_claim_processing r p refl)
  step-Retrieved t u (prl_sent_after_error sent p) r =
      sent-Retrieved t sent (unclaimed t prl_claim_error r p refl)
  step-Retrieved t u (reclaim_started g p) r = p
  step-Retrieved t u (reclaim_failed g p) r = p
  step-Retrieved t u (given_up g p) r = p

  abbrev AnyChain : Chain → Type 0
  AnyChain c = Unit

  -- Whatever the calls of the run answer: where every row whose gas is being fetched back, or has been, has
  -- its PRL retrieved, that holds again after ClaimUnusedPRLs, for all three statuses of fetching gas back.
  pub claim_unused_prls-Retrieved :
      (mode : BrokerMode) (payment : PaymentMode) (threshold_time : ℕ) (s : Uploads gw)
      → All Retrieved s.rows
      → All Retrieved (claim_unused_prls gw mode payment threshold_time s).rows
  claim_unused_prls-Retrieved mode payment threshold_time s h =
      (claim_unused_prls-Kept gw Retrieved AnyChain step-Retrieved (λ t u c d step sent h q. tt)
        mode payment threshold_time s (record { held = h; chain_held = tt })).held

  -- Every row that ClaimUnusedPRLs leaves comes from a row of the table before it, by steps of the graph
  -- of gas and PRL statuses: no other change of status happens in a run.
  pub claim_unused_prls_moves :
      (mode : BrokerMode) (payment : PaymentMode) (threshold_time : ℕ) (s : Uploads gw)
      → From (UploadSteps gw) s.rows (claim_unused_prls gw mode payment threshold_time s).rows
  claim_unused_prls_moves mode payment threshold_time s =
      (claim_unused_prls-Kept gw (λ u. Any (λ t. UploadSteps gw t u) s.rows) AnyChain
        (λ u v step h.
          Any-map (λ t. UploadSteps gw t u) (λ t. UploadSteps gw t v) s.rows
            (λ t steps. then_steps steps step) h)
        (λ t u c d step sent h q. tt) mode payment threshold_time s
        (record { held = From-self (UploadSteps gw) s.rows (λ t. stays); chain_held = tt })).held
