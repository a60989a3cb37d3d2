-- ===== src/Unused/Job/Moves/Kept.antt =====
-- jobs/claim_unused_prls.go: what every step of a row keeps, the loops keep of all rows; and what every
-- transfer for a row that may take a step keeps, they keep of the chain.
use brokernode.Unused.Job.Moves.{Sends, sends_gas, sends_prl, UploadStep, written_at}
use brokernode.Unused.Job.{
  gas_on_its_way, initiate_gas_transfer, initiate_prl_claim_of, on_gas_sent, on_prl_sent,
  prl_on_its_way, send_gas_to_upload, send_message, with_key,
}
use brokernode.Prelude.Word.{wrap64}
use brokernode.Prelude.Rows.{Rows, each_row, each_row-Rows, if-Rows, write_row, write_row-Rows}
use brokernode.Prelude.Int.{eqb_ℤ, negsuc, ℤ, pos}
use brokernode.Prelude.Bytes.{Bytes}
use brokernode.Prelude.{
  Bool, Option, arith, if◌then◌else◌, none, some, true, ℕ, ◌&&◌, ◌≡◌, [], refl,
}
use brokernode.Unused.{CompletedUpload, UnusedServices, Uploads, unless_unpriced, uploads_db}

pub both_true : (a b : Bool) → (a && b) ≡ true → (a ≡ true) × (b ≡ true)
both_true a b h = ground arith

module _ {Chain : Type 0} (gw : UnusedServices Chain) (P : CompletedUpload → Type 0)
    (Q : Chain → Type 0) (closed : (t u : CompletedUpload) → UploadStep gw t u → P t → P u)
    (sends : (t u : CompletedUpload) (c d : Chain)
      → UploadStep gw t u
      → Sends gw t.eth_addr c d
      → P t
      → Q c
      → Q d) where
  abbrev pub RowsKept : Uploads gw → Type 0
  RowsKept s = Rows (uploads_db gw) P Q s

  pub write-RowsKept :
      (t u : CompletedUpload) (s : Uploads gw)
      → UploadStep gw t (written_at gw.now u)
      → P t
      → RowsKept s
      → RowsKept (write_row (uploads_db gw) u s)
  unfolding uploads_db
  write-RowsKept t u s step h k =
      write_row-Rows (uploads_db gw) P Q u s (closed t (written_at gw.now u) step h) k

  pub with_chain :
      (s : Uploads gw) (c : Chain) (t u : CompletedUpload)
      → UploadStep gw t u
      → Sends gw t.eth_addr s.chain c
      → P t
      → RowsKept s
      → RowsKept (record s { chain = c })
  with_chain s c t u step sent h k = record {
    held = k.held;
    chain_held = sends t u s.chain c step sent h k.chain_held;
  }

  pub choose :
      (b : Bool) (x y : Uploads gw) → RowsKept x → RowsKept y → RowsKept (if b then x else y)
  choose b x y h k = if-Rows (uploads_db gw) P Q b x y h k

  pub loop :
      (query : ℕ) (test : CompletedUpload → Bool) (body : CompletedUpload → Uploads gw → Uploads gw)
      (s : Uploads gw)
      → ((t : CompletedUpload) (s : Uploads gw)
          → P t × (test t ≡ true)
          → RowsKept s
          → RowsKept (body t s))
      → RowsKept s
      → RowsKept (each_row (uploads_db gw) query test body s)
  loop query test body s f k = each_row-Rows (uploads_db gw) P Q query test body s f k

  pub priced-RowsKept :
      (price : Option ℤ) (f : ℤ → Uploads gw) (s : Uploads gw)
      → ((gas : ℤ) → RowsKept (f gas))
      → RowsKept s
      → RowsKept (unless_unpriced gw price f s)
  priced-RowsKept none f s h k = k
  priced-RowsKept (some gas) f s h k = h gas

  on_gas_sent-RowsKept :
      (answer : Option (Bytes × ℤ)) (t : CompletedUpload) (s : Uploads gw)
      → ((sent : Bytes × ℤ) → UploadStep gw t (written_at gw.now (gas_on_its_way gw t sent)))
      → P t
      → RowsKept s
      → RowsKept (on_gas_sent gw answer t s)
  on_gas_sent-RowsKept none t s step h k = k
  on_gas_sent-RowsKept (some sent) t s step h k =
      write-RowsKept t (gas_on_its_way gw t sent) s (step sent) h k

  pub initiate_gas_transfer-RowsKept :
      (query : ℕ) (test : CompletedUpload → Bool) (s : Uploads gw)
      → ((t : CompletedUpload) (sent : Bytes × ℤ)
          → test t ≡ true
          → UploadStep gw t (written_at gw.now (gas_on_its_way gw t sent)))
      → RowsKept s
      → RowsKept (initiate_gas_transfer gw query test s)
  unfolding initiate_gas_transfer send_gas_to_upload
  initiate_gas_transfer-RowsKept query test s step k =
      priced-RowsKept (gw.gas_for_prl_send s.chain) _ s
        (λ gas.
          loop query test (send_gas_to_upload gw gas) s
            (λ t s h k.
              let out = gw.send_eth s.chain gw.main_wallet gw.main_key t.eth_addr gas in
              on_gas_sent-RowsKept (out.0) t (record s { chain = out.1 }) (λ sent. step t sent h.1)
                h.0 (with_chain s (out.1) t _ (step t ([], pos 0) h.1) (sends_gas gas) h.0 k))
            k)
        k

  on_prl_sent-RowsKept :
      (answer : Option (Bytes × ℤ)) (t : CompletedUpload) (s : Uploads gw)
      → ((sent : Bytes × ℤ) → UploadStep gw t (written_at gw.now (prl_on_its_way gw t sent)))
      → P t
      → RowsKept s
      → RowsKept (on_prl_sent gw answer t s)
  on_prl_sent-RowsKept none t s step h k = k
  on_prl_sent-RowsKept (some sent) t s step h k =
      write-RowsKept t (prl_on_its_way gw t sent) s (step sent) h k

  send_message-RowsKept :
      (key : Bytes) (balance : ℤ) (message : Option Bytes) (t : CompletedUpload) (s : Uploads gw)
      → gw.create_send_prl_message s.chain t.eth_addr key gw.main_wallet balance ≡ message
      → ((sent : Bytes × ℤ) → UploadStep gw t (written_at gw.now (prl_on_its_way gw t sent)))
      → P t
      → RowsKept s
      → RowsKept (send_message gw message t s)
  send_message-RowsKept key balance none t s made step h k = k
  send_message-RowsKept key balance (some message) t s made step h k =
      let out = gw.send_prl_from_oyster s.chain message in
      on_prl_sent-RowsKept (out.0) t (record s { chain = out.1 }) step h
        (with_chain s (out.1) t _ (step ([], pos 0)) (sends_prl key message balance made) h k)

  with_key-RowsKept :
      (key : Option Bytes) (balance : ℤ) (t : CompletedUpload) (s : Uploads gw)
      → ((sent : Bytes × ℤ) → UploadStep gw t (written_at gw.now (prl_on_its_way gw t sent)))
      → P t
      → RowsKept s
      → RowsKept (with_key gw key balance t s)
  with_key-RowsKept none balance t s step h k = k
  with_key-RowsKept (some key) balance t s step h k =
      send_message-RowsKept key balance
        (gw.create_send_prl_message s.chain t.eth_addr key gw.main_wallet balance) t s refl step h k

  pub claim_loop-RowsKept :
      (query : ℕ) (test : CompletedUpload → Bool) (s : Uploads gw)
      → ((t : CompletedUpload) (sent : Bytes × ℤ)
          → test t ≡ true
          → UploadStep gw t (written_at gw.now (prl_on_its_way gw t sent)))
      → RowsKept s
      → RowsKept (each_row (uploads_db gw) query test (initiate_prl_claim_of gw) s)
  unfolding initiate_prl_claim_of
  claim_loop-RowsKept query test s step k =
      loop query test (initiate_prl_claim_of gw) s
        (λ t s h k.
          let balance = gw.check_prl_balance s.chain t.eth_addr in
          choose (eqb_ℤ (wrap64 balance) (negsuc 0)) s _ k
            (with_key-RowsKept (gw.private_key t) balance t s (λ sent. step t sent h.1) h.0 k))
        k
