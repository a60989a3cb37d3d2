-- ===== src/Claims/Job/Sound.antt =====
-- jobs/claim_treasure_for_webnode.go: the gas of a claim is only fetched back, and the claim only
-- deleted, once its PRL are claimed.
pub mod Run
use brokernode.Prelude.{
  ℕ, ◌≡◌, refl, Bool, true, false, ◌&&◌, ◌||◌, not, Option, none, some, inl, inr, Bool-cases, All,
  if◌then◌else◌,
}
use brokernode.Prelude.Int.{ℤ, pos, negsuc, ◌-ℤ◌, eqb_ℤ, ltb_ℤ, leb_ℤ}
use brokernode.Prelude.Word.{wrap64}
use brokernode.Prelude.Bytes.{Bytes}
use brokernode.Prelude.Table.{keep, All-keep, All-save_row, for_each-keeps}
use brokernode.Claims.{
  gas_arrived_of, on_clock, reclaimed_of, Claim, Claiming, Gateway, claim_processing, claim_success,
  claim_error, gas_processing, gas_success, reclaim_processing, reclaim_success, reclaim_error,
  with_gas, with_prl, stamp, write, each, priced, gas_arrived_of, on_clock, reclaimed_of,
  send_gas_of, send_gas,
}
use brokernode.Claims.Job.{
  read_clock, set_claim_clock_if_unset, claim_with, claim_clocked, claim_prl_of, on_worth,
}

-- The statuses of fetching gas back.
abbrev pub reclaims : Claim → Bool
reclaims t =
    eqb_ℤ t.gas_status reclaim_processing
    || eqb_ℤ t.gas_status reclaim_success
    || eqb_ℤ t.gas_status reclaim_error

-- A claim whose gas is being fetched back, or has been, has its PRL claimed.
abbrev pub Sound : Claim → Type 0
Sound t = (not (reclaims t) || eqb_ℤ t.claim_prl_status claim_success) ≡ true

module _ {Chain : Type 0} (gw : Gateway Chain) where
  pub record AllSound (s : Claiming Chain) : Type 0 where
    pub rows : All Sound s.claims

  pub write-Sound :
      (t : Claim) (s : Claiming Chain) → Sound t → AllSound s → AllSound (write gw t s)
  unfolding write stamp
  write-Sound t s h k = elim (Bool-cases (gw.update_works (stamp gw t))) [
    | inl works ↦
        rw works (record {
          rows = All-save_row Sound (λ (r : Claim). r.id) (stamp gw t) s.claims h k.rows;
        })
    | inr fails ↦ rw fails k
  ]

  pub if-Sound :
      (b : Bool) (x y : Claiming Chain) → AllSound x → AllSound y → AllSound (if b then x else y)
  if-Sound true x y h k = h
  if-Sound false x y h k = k

  pub each-Sound :
      (query : ℕ) (test : Claim → Bool) (body : Claim → Claiming Chain → Claiming Chain)
      (s : Claiming Chain)
      → ((t : Claim) (s : Claiming Chain)
          → Sound t × (test t ≡ true)
          → AllSound s
          → AllSound (body t s))
      → AllSound s
      → AllSound (each gw query test body s)
  unfolding each
  each-Sound query test body s f k =
      if-Sound (gw.query_works query) _ s
        (for_each-keeps (λ t. Sound t × (test t ≡ true)) AllSound body (keep test s.claims) s f
          (All-keep Sound test s.claims k.rows) k)
        k

  pub priced-Sound :
      (price : Option ℤ) (f : ℤ → Claiming Chain) (s : Claiming Chain)
      → ((gas : ℤ) → AllSound (f gas))
      → AllSound s
      → AllSound (priced gw price f s)
  unfolding priced
  priced-Sound none f s h k = k
  priced-Sound (some gas) f s h k = h gas

  -- What follows a transfer of gas.
  sent-Sound :
      (answer : Option (Bytes × ℤ)) (t : Claim) (s : Claiming Chain)
      → AllSound s
      → AllSound (elim answer [
        | none ↦ s
        | some (hash, nonce) ↦
            write gw
              (record t { gas_status = gas_processing; gas_tx_hash = hash; gas_tx_nonce = nonce })
              s
      ])
  sent-Sound none t s k = k
  sent-Sound (some (hash, nonce)) t s k =
      write-Sound
        (record t { gas_status = gas_processing; gas_tx_hash = hash; gas_tx_nonce = nonce }) s refl
        k

  -- A status that is not one of fetching back makes any row sound.
  send_gas_of-Sound :
      (gas : ℤ) (t : Claim) (s : Claiming Chain) → AllSound s → AllSound (send_gas_of gw gas t s)
  unfolding send_gas_of
  send_gas_of-Sound gas t s k =
      let out =
        gw.send_eth s.chain gw.main_wallet (some gw.main_key) t.treasure_eth_addr
          (gas -ℤ gw.check_eth_balance s.chain t.treasure_eth_addr) in
      let kept : AllSound (record s { chain = out.1 }) = record { rows = k.rows } in
      if-Sound (ltb_ℤ (wrap64 gas) (wrap64 (gw.check_eth_balance s.chain t.treasure_eth_addr))) _ _
        (write-Sound (with_gas gas_success t) s refl k)
        (sent-Sound out.0 t (record s { chain = out.1 }) kept)

  pub send_gas-Sound :
      (query : ℕ) (test : Claim → Bool) (s : Claiming Chain)
      → AllSound s
      → AllSound (send_gas gw query test s)
  unfolding send_gas
  send_gas-Sound query test s k =
      priced-Sound (gw.gas_for_claim s.chain) _ s
        (λ gas.
          each-Sound query test (send_gas_of gw gas) s (λ t s h k. send_gas_of-Sound gas t s k) k)
        k

  -- ClaimPRL of a row whose gas is not being fetched back.
  free-Sound : (t : Claim) (p : ℤ) → reclaims t ≡ false → Sound (with_prl p t)
  free-Sound t p h = rw h refl

  claim_with-Sound :
      (key : Option Bytes) (t : Claim) (s : Claiming Chain)
      → reclaims t ≡ false
      → AllSound s
      → AllSound (claim_with gw key t s)
  unfolding claim_with
  claim_with-Sound none t s h k = k
  claim_with-Sound (some key) t s h k =
      let out = gw.claim_prl s.chain t.receiver_eth_addr t.treasure_eth_addr key in
      let kept : AllSound (record s { chain = out.1 }) = record { rows = k.rows } in
      if-Sound out.0 _ _
        (write-Sound (with_prl claim_processing t) _ (free-Sound t claim_processing h) kept)
        (write-Sound (with_prl claim_error t) _ (free-Sound t claim_error h) kept)

  clocked-Sound :
      (t : Claim) (s : Claiming Chain)
      → reclaims t ≡ false
      → AllSound s
      → AllSound (claim_clocked gw (some t) s)
  unfolding claim_clocked
  clocked-Sound t s h k =
      if-Sound (eqb_ℤ (wrap64 (gw.check_prl_balance s.chain t.treasure_eth_addr)) (pos 0)) _ _
        (write-Sound (with_prl claim_success t) s (free-Sound t claim_success h) k)
        (claim_with-Sound (gw.decrypt t) t s h k)

  if_written-Sound :
      (b : Bool) (t : Claim) (s : Claiming Chain)
      → reclaims t ≡ false
      → AllSound s
      → AllSound (claim_clocked gw (if b then some t else none) s)
  unfolding claim_clocked
  if_written-Sound true t s h k = clocked-Sound t s h k
  if_written-Sound false t s h k = k

  read_clock-Sound :
      (clock : Option ℤ) (t : Claim) (s : Claiming Chain)
      → reclaims t ≡ false
      → AllSound s
      → AllSound (claim_clocked gw (read_clock gw clock t s).0 (read_clock gw clock t s).1)
  unfolding read_clock claim_clocked
  read_clock-Sound none t s h k = k
  read_clock-Sound (some clock) t s h k =
      let t' = record t { starting_claim_clock = wrap64 clock } in
      if_written-Sound (gw.update_works (stamp gw t')) t' (write gw t' s) h
        (write-Sound t' s (rw h refl) k)

  pub claim_prl_of-Sound :
      (t : Claim) (s : Claiming Chain)
      → reclaims t ≡ false
      → AllSound s
      → AllSound (claim_prl_of gw t s)
  unfolding claim_prl_of set_claim_clock_if_unset
  claim_prl_of-Sound t s h k = elim (Bool-cases (eqb_ℤ t.starting_claim_clock (negsuc 0))) [
    | inl unset ↦
        rw unset (read_clock-Sound (gw.check_claim_clock s.chain t.treasure_eth_addr) t s h k)
    | inr set ↦ rw set (clocked-Sound t s h k)
  ]

  pub gas_arrived-Sound :
      (gas : ℤ) (t : Claim) (s : Claiming Chain) → AllSound s → AllSound (gas_arrived_of gw gas t s)
  unfolding gas_arrived_of
  gas_arrived-Sound gas t s k =
      if-Sound (leb_ℤ (wrap64 gas) (wrap64 (gw.check_eth_balance s.chain t.treasure_eth_addr))) _ s
        (write-Sound (with_gas gas_success t) s refl k) k

  claimed-Sound : (t : Claim) → Sound (with_prl claim_success t)
  claimed-Sound t = elim (Bool-cases (reclaims t)) [
    | inl back ↦ rw back refl
    | inr free ↦ rw free refl
  ]

  pub on_clock-Sound :
      (clock : Option ℤ) (t : Claim) (s : Claiming Chain)
      → AllSound s
      → AllSound (on_clock gw clock t s)
  unfolding on_clock
  on_clock-Sound none t s k = k
  on_clock-Sound (some clock) t s k =
      if-Sound
        (not (eqb_ℤ (wrap64 clock) t.starting_claim_clock)
          && not (eqb_ℤ t.starting_claim_clock (negsuc 0)))
        _ s (write-Sound (with_prl claim_success t) s (claimed-Sound t) k) k

  pub reclaimed-Sound :
      (t : Claim) (s : Claiming Chain)
      → eqb_ℤ t.claim_prl_status claim_success ≡ true
      → AllSound s
      → AllSound (reclaimed_of gw t s)
  unfolding reclaimed_of
  reclaimed-Sound t s h k =
      let balance = wrap64 (gw.check_eth_balance s.chain t.treasure_eth_addr) in
      let done = write-Sound (with_gas reclaim_success t) s h k in
      if-Sound (ltb_ℤ (pos 0) balance) _ _
        (priced-Sound (gw.gas_for_send s.chain) _ s
          (λ gas. if-Sound (ltb_ℤ balance (wrap64 gas)) _ s done k) k)
        done

  started-Sound :
      (answer : Option (Bytes × ℤ)) (t : Claim) (s : Claiming Chain)
      → eqb_ℤ t.claim_prl_status claim_success ≡ true
      → AllSound s
      → AllSound (elim answer [ none ↦ s | some sent ↦ write gw (with_gas reclaim_processing t) s ])
  started-Sound none t s h k = k
  started-Sound (some sent) t s h k = write-Sound (with_gas reclaim_processing t) s h k

  pub on_worth-Sound :
      (answer : Option (Bool × ℤ)) (t : Claim) (s : Claiming Chain)
      → eqb_ℤ t.claim_prl_status claim_success ≡ true
      → AllSound s
      → AllSound (on_worth gw answer t s)
  unfolding on_worth
  on_worth-Sound none t s h k = k
  on_worth-Sound (some (false, gas)) t s h k = write-Sound (with_gas reclaim_success t) s h k
  on_worth-Sound (some (true, gas)) t s h k =
      let out = gw.send_eth s.chain t.treasure_eth_addr (gw.decrypt t) gw.main_wallet gas in
      let kept : AllSound (record s { chain = out.1 }) = record { rows = k.rows } in
      started-Sound out.0 t (record s { chain = out.1 }) h kept
