-- ===== src/Payments/Jobs/Transfers.antt =====
-- jobs/check_alpha_payments.go and jobs/check_beta_payments.go: when money is seen, when it is sent
-- on, and when a row is forgotten.
use mathlib.Core.Path.{subst}
use brokernode.Prelude.{
  ◌*◌, not, if◌then◌else◌, All-map, ℕ, ◌^◌, ◌≤◌, ◌<◌, ◌≡◌, refl, ◌⊎◌, inl, inr, Bool, true, false,
  List, [], ◌∷◌, map, All, arith, Bool-cases, ap, sym, ◌&&◌, ◌-◌, ◌∙◌,
}
use brokernode.Prelude.Int.{ℤ, pos, ◌≤ℤ◌, ◌<ℤ◌, eqb_ℤ, eqb_ℤ_iff, ltb_ℤ, div_ℤ, leb_ℤ, negsuc}
use brokernode.Prelude.Word.{wrap64, wrap64_id}
use brokernode.Prelude.Table.{All-keep}
use brokernode.Prelude.Bytes.{is_empty, Bytes, bytes_eq}
use brokernode.Models.Session.{UploadSession, payment_status_confirmed}
use brokernode.Payments.{
  delete_completed_broker_transactions, alpha_payment_confirmed,
  delete_completed_broker_transactions, set_upload_session_to_paid, BrokerTx, State, World, save,
  with_status, pay_session, gas_payment_confirmed, beta_payment_confirmed, beta_payment_pending,
}
use brokernode.Payments.Jobs.{
  check_payment_to_beta, handle_error_transactions_if_alpha, handle_timed_out_transactions_if_alpha,
  handle_timed_out_beta_payment_if_beta, check_payment_to_alpha_of, check_beta_payments, arrived,
  is_alpha_tx, check_and_send_half_prl_to_beta,
}

-- The two lists have the same length, and R relates their elements place by place.
abbrev pub Pairwise : {A : Type 0} → (A → A → Type 0) → List A → List A → Type 0
Pairwise R [] [] = Unit
Pairwise R [] (y ∷ ys) = ⊥
Pairwise R (x ∷ xs) [] = ⊥
Pairwise R (x ∷ xs) (y ∷ ys) = R x y × Pairwise R xs ys

module _ {Chain : Type 0} (w : World Chain) where
  -- What holds when alpha's PRL are sent on.
  pub record MaySend (t : BrokerTx) (st : State Chain) : Type 0 where
    pub alpha : is_alpha_tx t ≡ true
    pub has_gas : t.payment_status ≡ gas_payment_confirmed
    pub to_someone : is_empty t.eth_addr_beta ≡ false
    pub not_yet_sent : ltb_ℤ (pos 0) (wrap64 (w.check_prl_balance st.chain t.eth_addr_beta)) ≡ false

  unsent : (t : BrokerTx) (s : ℤ) (st : State Chain) → (save w t s st).1.chain ≡ st.chain
  unfolding save
  unsent t s st = elim (Bool-cases (w.save_works (with_status w s t))) [
    | inl works ↦ rw works refl
    | inr fails ↦ rw fails refl
  ]

  sent_once :
      (t : BrokerTx) (balance : ℤ) (st : State Chain) (a b c d : Bool)
      → is_alpha_tx t ≡ a
      → eqb_ℤ t.payment_status gas_payment_confirmed ≡ b
      → is_empty t.eth_addr_beta ≡ c
      → ltb_ℤ (pos 0) (wrap64 (w.check_prl_balance st.chain t.eth_addr_beta)) ≡ d
      → ((check_and_send_half_prl_to_beta w t balance st).chain ≡ st.chain)
        ⊎ (MaySend t st
            × ((check_and_send_half_prl_to_beta w t balance st).chain
                ≡ (w.send_prl st.chain t.eth_addr_alpha
                    (w.decrypt t)
                    t.eth_addr_beta
                    (div_ℤ balance 2)).1))
  unfolding check_and_send_half_prl_to_beta
  sent_once t balance st false b c d ha hb hc hd = inl (rw ha refl)
  sent_once t balance st true false c d ha hb hc hd = inl (rw ha (rw hb refl))
  sent_once t balance st true true true d ha hb hc hd = inl (rw ha (rw hb (rw hc refl)))
  sent_once t balance st true true false true ha hb hc hd =
      inl (rw ha (rw hb (rw hc (rw hd (unsent t beta_payment_confirmed st)))))
  sent_once t balance st true true false false ha hb hc hd =
      let answer =
        w.send_prl st.chain t.eth_addr_alpha (w.decrypt t) t.eth_addr_beta (div_ℤ balance 2) in
      let st' = record st { chain = answer.1 } in
      inr (
        record {
          alpha = ha;
          has_gas = (eqb_ℤ_iff t.payment_status gas_payment_confirmed).0 hb;
          to_someone = hc;
          not_yet_sent = hd;
        },
        rw ha (
            rw hb (
              rw hc (
                rw hd (elim (Bool-cases answer.0) [
                  | inl sent ↦ rw sent (unsent t beta_payment_pending st')
                  | inr failed ↦ rw failed refl
                ])))),
      )

  -- checkAndSendHalfPrlToBeta touches the chain only by one transfer of half the balance that it is
  -- given, rounded down (so that of -1 it is -1), from alpha's address to beta's, and only for an alpha row
  -- whose gas is confirmed, that names a beta address, and whose beta address is not yet seen to hold PRL.
  pub half_prl_sent_once :
      (t : BrokerTx) (balance : ℤ) (st : State Chain)
      → ((check_and_send_half_prl_to_beta w t balance st).chain ≡ st.chain)
        ⊎ (MaySend t st
            × ((check_and_send_half_prl_to_beta w t balance st).chain
                ≡ (w.send_prl st.chain t.eth_addr_alpha
                    (w.decrypt t)
                    t.eth_addr_beta
                    (div_ℤ balance 2)).1))
  half_prl_sent_once t balance st = sent_once t balance st _ _ _ _ refl refl refl refl

  -- A balance and an expected amount that int64 holds are compared as they are.
  arrived_exact :
      (balance expected : ℤ)
      → negsuc (2 ^ 63 - 1) ≤ℤ balance
      → balance <ℤ pos (2 ^ 63)
      → negsuc (2 ^ 63 - 1) ≤ℤ expected
      → expected <ℤ pos (2 ^ 63)
      → arrived balance expected ≡ (ltb_ℤ (pos 0) balance && leb_ℤ expected balance)
  arrived_exact balance expected low high low' high' =
      rw (wrap64_id balance low high) (rw (wrap64_id expected low' high') refl)

  -- The session is that of the upload and is confirmed, or it stays as it is: since it is of another
  -- upload, or since nothing is paid.
  pub data Settlement (hash : Bytes) (paid : Bool) : UploadSession → UploadSession → Type 0 where
    now_confirmed :
        {u : UploadSession}
        → paid ≡ true
        → bytes_eq u.genesis_hash hash ≡ true
        → Settlement hash paid u (record u { payment_status = payment_status_confirmed })
    other_upload :
        {u : UploadSession} → bytes_eq u.genesis_hash hash ≡ false → Settlement hash paid u u
    not_paid : {u : UploadSession} → paid ≡ false → Settlement hash paid u u

  reads_negative :
      (balance : ℕ)
      → 2 ^ 63 ≤ balance
      → balance < 2 ^ 64
      → ltb_ℤ (pos 0) (wrap64 (pos balance)) ≡ false
  unfolding wrap64
  reads_negative balance l u = ground arith

  anything : (xs : List BrokerTx) → All (λ t. Unit {0}) xs
  anything [] = tt
  anything (x ∷ xs) = (tt, anything xs)

  confirmed_already :
      (u : UploadSession)
      → u.payment_status ≡ payment_status_confirmed
      → record u { payment_status = payment_status_confirmed } ≡ u
  confirmed_already u e = ap (λ s. record u { payment_status = s }) (sym e)

  pay_session-Settlement :
      (hash : Bytes) (u : UploadSession) → Settlement hash true u (pay_session w hash u)
  unfolding pay_session
  pay_session-Settlement hash u = elim (Bool-cases (bytes_eq u.genesis_hash hash)) [
    | inl mine ↦ elim (Bool-cases (eqb_ℤ u.payment_status payment_status_confirmed)) [
      | inl already ↦ rw already (
          subst (λ v. Settlement hash true u v)
            (confirmed_already u ((eqb_ℤ_iff u.payment_status payment_status_confirmed).0 already))
            (now_confirmed refl mine))
      | inr not_yet ↦ rw (not_yet, mine) (now_confirmed refl mine)
    ]
    | inr other ↦ elim (Bool-cases (eqb_ℤ u.payment_status payment_status_confirmed)) [
      | inl already ↦ rw already (other_upload other)
      | inr not_yet ↦ rw (not_yet, other) (other_upload other)
    ]
  ]

  map-Settlement :
      (hash : Bytes) (us : List UploadSession)
      → Pairwise (Settlement hash true) us (map (pay_session w hash) us)
  map-Settlement hash [] = tt
  map-Settlement hash (u ∷ us) = (pay_session-Settlement hash u, map-Settlement hash us)

  unpaid-Settlement :
      (hash : Bytes) (us : List UploadSession) → Pairwise (Settlement hash false) us us
  unpaid-Settlement hash [] = tt
  unpaid-Settlement hash (u ∷ us) = (not_paid refl, unpaid-Settlement hash us)

  settled :
      (t : BrokerTx) (st : State Chain) (a b c : Bool)
      → arrived (w.check_prl_balance st.chain t.eth_addr_alpha) (w.wei t.total_cost) ≡ a
      → (save w t (if is_alpha_tx t then alpha_payment_confirmed else beta_payment_pending) st).0
        ≡ b
      → w.paid_works t ≡ c
      → Pairwise
          (Settlement t.genesis_hash (a && (b && c)))
          st.sessions
          (check_payment_to_alpha_of w t st).sessions
  unfolding check_payment_to_alpha_of set_upload_session_to_paid
  settled t st false b c ha hb hc = rw ha (unpaid-Settlement t.genesis_hash st.sessions)
  settled t st true false c ha hb hc = rw (ha, hb) (unpaid-Settlement t.genesis_hash st.sessions)
  settled t st true true false ha hb hc =
      rw (ha, hb, hc) (unpaid-Settlement t.genesis_hash st.sessions)
  settled t st true true true ha hb hc = rw (ha, hb, hc) (map-Settlement t.genesis_hash st.sessions)

  -- Where the balance of a row's alpha address and the cost in wei are in the range of int64: after the body
  -- of CheckPaymentToAlpha's loop, the sessions with the row's genesis hash are confirmed, with nothing else
  -- of them changed, if the balance is positive and at least the cost and both updates work; if not, and for
  -- the sessions of every other upload in any case, they are exactly as before.
  pub check_payment_to_alpha_of-Settlement :
      (t : BrokerTx) (st : State Chain) (balance : ℤ)
      → w.check_prl_balance st.chain t.eth_addr_alpha ≡ balance
      → negsuc (2 ^ 63 - 1) ≤ℤ balance
      → balance <ℤ pos (2 ^ 63)
      → negsuc (2 ^ 63 - 1) ≤ℤ w.wei t.total_cost
      → w.wei t.total_cost <ℤ pos (2 ^ 63)
      → let next = if is_alpha_tx t then alpha_payment_confirmed else beta_payment_pending in
        let covered = ltb_ℤ (pos 0) balance && leb_ℤ (w.wei t.total_cost) balance in
        Pairwise
          (Settlement t.genesis_hash (covered && ((save w t next st).0 && w.paid_works t)))
          st.sessions
          (check_payment_to_alpha_of w t st).sessions
  check_payment_to_alpha_of-Settlement t st balance e low high low' high' =
      settled t st _ _ _
        (ap (λ x. arrived x (w.wei t.total_cost)) e
          ∙ arrived_exact balance (w.wei t.total_cost) low high low' high')
        refl refl

  -- A balance from 2^63 wei to below 2^64 reads as negative, so the loop's body does nothing, and
  -- the payment of an upload that costs that much is never seen.
  pub big_payment_unseen :
      (t : BrokerTx) (balance : ℕ) (st : State Chain)
      → w.check_prl_balance st.chain t.eth_addr_alpha ≡ pos balance
      → 2 ^ 63 ≤ balance
      → balance < 2 ^ 64
      → check_payment_to_alpha_of w t st ≡ st
  unfolding check_payment_to_alpha_of
  big_payment_unseen t balance st e l u = rw e (rw (reads_negative balance l u) refl)

  pub Unfinished : BrokerTx → Type 0
  Unfinished t = eqb_ℤ t.payment_status beta_payment_confirmed ≡ false

  purged :
      (st : State Chain)
      → w.delete_works ≡ true
      → All Unfinished (delete_completed_broker_transactions w st).txs
  unfolding delete_completed_broker_transactions Unfinished
  purged st works =
      let kept =
        All-keep (λ (t : BrokerTx). Unit {0})
          (λ (t : BrokerTx). not (eqb_ℤ t.payment_status beta_payment_confirmed)) st.txs
          (anything st.txs) in
      rw works (
        All-map (λ t. Unit {0} × (not (eqb_ℤ t.payment_status beta_payment_confirmed) ≡ true))
          Unfinished _ (λ t h. ground (arith, h.1)) kept)

  -- After a run of CheckBetaPayments whose deletion works, no row is left whose payment to beta is
  -- confirmed.
  pub no_completed_left :
      (duration : ℕ) (st : State Chain)
      → w.delete_works ≡ true
      → All Unfinished (check_beta_payments w duration st).txs
  unfolding check_beta_payments
  no_completed_left duration st works =
      let retried =
        handle_timed_out_transactions_if_alpha w duration
          (handle_error_transactions_if_alpha w (check_payment_to_beta w st)) in
      purged (handle_timed_out_beta_payment_if_beta w (duration * 3) retried) works
