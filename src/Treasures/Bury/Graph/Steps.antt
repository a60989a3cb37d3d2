-- ===== src/Treasures/Bury/Graph/Steps.antt =====
-- jobs/bury_treasure_addresses.go: every function of the job keeps every treasure in the graph.
use brokernode.Prelude.{
  ℕ, ◌≡◌, refl, Bool, true, false, ◌&&◌, List, inl, inr, ◌⊎◌, Option, none, some, arith, ltb,
}
use brokernode.Prelude.Int.{ℤ, pos, negsuc, eqb_ℤ, eqb_ℤ_iff, ltb_ℤ}
use brokernode.Prelude.Word.{wrap64, add64, mul64}
use brokernode.Treasures.{
  Treasure, Burial, Services, stamped, update, set_to_treasure_buried, prl_pending, gas_pending,
  bury_pending, bury_confirmed, gas_reclaim_pending, gas_reclaim_confirmed,
}
use brokernode.Treasures.Bury.{
  prl_arrived, to_status, check_prl_of, check_gas_of, on_buried, on_reclaimable, time_out_of,
  stage_of,
}
use brokernode.Treasures.Bury.Graph.{Edge, Leads, Origin, Kept, update-Kept, marked-Kept, if-Kept}

unfoldable pub At : ℤ → Treasure → Type 0
At s t = t.prl_status ≡ s

pub at : (s : ℤ) (t : Treasure) → eqb_ℤ t.prl_status s ≡ true → At s t
unfolding At
at s t h = (eqb_ℤ_iff t.prl_status s).0 h

unfoldable pub TimesOut : Treasure → Type 0
TimesOut t = Edge t.prl_status (mul64 (add64 t.prl_status (negsuc 0)) (negsuc 0))

unfoldable pub Retries : Treasure → Type 0
Retries t = Edge t.prl_status (mul64 t.prl_status (negsuc 0))

pub late_at :
    (s : ℤ)
    → Edge s (mul64 (add64 s (negsuc 0)) (negsuc 0))
    → (t : Treasure) (old : Bool) → (eqb_ℤ t.prl_status s && old) ≡ true
    → TimesOut t
unfolding TimesOut
late_at s e t old h =
    let same : t.prl_status ≡ s = (eqb_ℤ_iff t.prl_status s).0 (ground (arith, h)) in rw same e

pub retry_at :
    (s : ℤ) → Edge s (mul64 s (negsuc 0)) → (t : Treasure) → eqb_ℤ t.prl_status s ≡ true → Retries t
unfolding Retries
retry_at s e t h = let same : t.prl_status ≡ s = (eqb_ℤ_iff t.prl_status s).0 h in rw same e

module _ {Chain : Type 0} (sv : Services Chain) (base : List Treasure) where
  -- Writing a row whose status, and no other column that counts, has moved along an edge.
  pub advanced :
      (t u : Treasure) (b : Burial Chain)
      → Origin base t
      → Edge t.prl_status u.prl_status
      → u ≡ record t {
        prl_status = u.prl_status;
        prl_tx_hash = u.prl_tx_hash;
        prl_tx_nonce = u.prl_tx_nonce;
        gas_tx_hash = u.gas_tx_hash;
        gas_tx_nonce = u.gas_tx_nonce;
        bury_tx_hash = u.bury_tx_hash;
        bury_tx_nonce = u.bury_tx_nonce;
      }
      → Kept base b
      → Kept base (update sv u b)
  unfolding stamped
  advanced t u b o e same k =
      update-Kept base sv t u b o
        (record {
          id = rw same refl;
          eth_addr = rw same refl;
          eth_key = rw same refl;
          prl_amount = rw same refl;
          genesis_hash = rw same refl;
          signed_status = rw same refl;
          status = Leads.moves Leads.stays e;
        })
        k

  pub At-Edge : (t : Treasure) (s s' : ℤ) → At s t → Edge s s' → Edge t.prl_status s'
  unfolding At
  At-Edge t s s' h e = rw h e

  pub set_to :
      (t : Treasure) (s s' : ℤ) (b : Burial Chain)
      → Origin base t
      → At s t
      → Edge s s'
      → Kept base b
      → Kept base (update sv (to_status s' t) b)
  set_to t s s' b o h e k = advanced t (to_status s' t) b o (At-Edge t s s' h e) refl k

  pub check_prl-Kept :
      (t : Treasure) (b : Burial Chain)
      → Origin base t × At prl_pending t
      → Kept base b
      → Kept base (check_prl_of sv t b)
  unfolding check_prl_of
  check_prl-Kept t b (o, h) k =
      if-Kept base sv (prl_arrived (sv.check_prl_balance b.chain t.eth_addr) t.prl_amount) _ b
        (set_to t _ _ b o h Edge.prl_seen k) k

  pub check_gas-Kept :
      (t : Treasure) (b : Burial Chain)
      → Origin base t × At gas_pending t
      → Kept base b
      → Kept base (check_gas_of sv t b)
  unfolding check_gas_of
  check_gas-Kept t b (o, h) k =
      if-Kept base sv (ltb_ℤ (pos 0) (wrap64 (sv.check_eth_balance b.chain t.eth_addr))) _ b
        (set_to t _ _ b o h Edge.gas_seen k) k

  pub on_buried-Kept :
      (answer : Option Bool) (t : Treasure) (b : Burial Chain)
      → Origin base t × At bury_pending t
      → Kept base b
      → Kept base (on_buried sv answer t b)
  unfolding on_buried
  on_buried-Kept none t b (o, h) k = k
  on_buried-Kept (some false) t b (o, h) k = k
  on_buried-Kept (some true) t b (o, h) k =
      let kept = marked-Kept base sv t.genesis_hash b k in
      if-Kept base sv (set_to_treasure_buried sv t.genesis_hash b).0 _ _
        (set_to t _ _ _ o h Edge.bury_seen kept) kept

  unfoldable pub Reclaimable : Treasure → Type 0
  Reclaimable t = At gas_reclaim_pending t ⊎ At bury_confirmed t

  given_up-Edge : (t : Treasure) → Reclaimable t → Edge t.prl_status gas_reclaim_confirmed
  unfolding Reclaimable
  given_up-Edge t (inl h) = At-Edge t _ _ h Edge.reclaim_done
  given_up-Edge t (inr h) = At-Edge t _ _ h Edge.reclaim_given_up

  pub on_reclaimable-Kept :
      (answer : Option (Bool × ℤ)) (threshold_time : ℕ) (t : Treasure) (b : Burial Chain)
      → Origin base t × Reclaimable t
      → Kept base b
      → Kept base (on_reclaimable sv answer threshold_time t b)
  unfolding on_reclaimable Reclaimable At
  on_reclaimable-Kept none threshold_time t b (o, h) k = k
  on_reclaimable-Kept (some (false, gas)) threshold_time t b (o, h) k =
      if-Kept base sv (ltb t.updated_at threshold_time) _ b
        (advanced t (to_status gas_reclaim_confirmed t) b o (given_up-Edge t h) refl k) k
  on_reclaimable-Kept (some (true, gas)) threshold_time t b (o, inl h) k = rw h k
  on_reclaimable-Kept (some (true, gas)) threshold_time t b (o, inr h) k =
      let kept : Kept base
          (record b { chain = (sv.reclaim_gas b.chain t.eth_addr (sv.decrypt t) gas).1 }) =
        record { rows = k.rows } in
      if-Kept base sv (eqb_ℤ t.prl_status gas_reclaim_pending) b _ k (
        if-Kept base sv (sv.reclaim_gas b.chain t.eth_addr (sv.decrypt t) gas).0 _ _
          (set_to t _ _ _ o h Edge.reclaim_sent kept) (set_to t _ _ _ o h Edge.reclaim_unsent kept))

  pub time_out-Kept :
      (t : Treasure) (b : Burial Chain)
      → Origin base t × TimesOut t
      → Kept base b
      → Kept base (time_out_of sv t b)
  unfolding time_out_of TimesOut
  time_out-Kept t b (o, e) k = advanced t _ b o e refl k

  pub stage-Kept :
      (t : Treasure) (b : Burial Chain)
      → Origin base t × Retries t
      → Kept base b
      → Kept base (stage_of sv t b)
  unfolding stage_of Retries
  stage-Kept t b (o, e) k = advanced t _ b o e refl k
