-- ===== src/Models/Session/Start.antt =====
-- models/upload_sessions.go, StartUploadSession: from the row that the API made to the session whose
-- chunks the broker attaches. The data maps are then built in the background.
use brokernode.Prelude.{
  ◌∙◌, ℕ, ◌^◌, ◌≤◌, ◌≡◌, refl, ◌⊎◌, inl, inr, Bool, true, false, arith, if◌then◌else◌, Bool-cases,
}
use brokernode.Prelude.Int.{ℤ, pos, negsuc, ◌≤ℤ◌, eqb_ℤ, eqb_ℤ_iff, int_laws, parts_exclusive, ◌+ℤ◌}
use brokernode.Prelude.Word.{add64, add64_small}
use brokernode.Prelude.Bytes.{Bytes}
use brokernode.Utils.Mode.{BrokerMode, PaymentMode, is_no_treasure}
use brokernode.Utils.Indexes.{total_chunks_using_num_chunks}
use brokernode.Models.Session.{UploadSession, session_type_alpha, session_type_beta, before_create}
use brokernode.Models.Session.Progress.Invariant.{InOrder}

-- The total of chunks that is kept, from the number that the request names.
pub kept_chunks : BrokerMode → ℤ → ℤ
kept_chunks mode n = if is_no_treasure mode then n else total_chunks_using_num_chunks n

-- The switch on the session's type.
pub initial_index : UploadSession → UploadSession
initial_index u =
    let last = add64 u.num_chunks (negsuc 0) in
    let alpha = record u { next_idx_to_attach = pos 0; next_idx_to_verify = pos 0 } in
    let beta = record u { next_idx_to_attach = last; next_idx_to_verify = last } in
    if eqb_ℤ u.type session_type_alpha
    then alpha
    else if eqb_ℤ u.type session_type_beta
    then beta
    else u

module _ {Db : Type 0} (create : UploadSession → Db → Bool × Db) (write : UploadSession → Db → Db)
    (cost : UploadSession → ℕ) (encrypt : UploadSession → Bytes) where
  -- StartUploadSession: whether the row could be created, the session and the database. `create` is
  -- pop's ValidateAndCreate after the row's own callback; `cost` is calculatePayment's price, in the
  -- decimal library's unit, and `encrypt` EncryptSessionEthKey's key.
  unfoldable pub start_upload_session :
      BrokerMode → PaymentMode → UploadSession → Db → Bool × UploadSession × Db
  unfolding kept_chunks initial_index
  start_upload_session mode payment u db =
      let made = before_create mode payment (record u { total_cost = cost u }) in
      let (fine, db') = create made db in
      let keyed = record made { eth_private_key = encrypt made } in
      let sized = record keyed { num_chunks = kept_chunks mode keyed.num_chunks } in
      let saved = write keyed db' in
      let resized = if is_no_treasure mode then saved else write sized saved in
      let ready = initial_index sized in
      if fine then (true, ready, write ready resized) else (false, made, db')

  total_small :
      (mode : BrokerMode) (n : ℕ)
      → 1 ≤ n
      → n ≤ 2 ^ 50
      → (pos 1 ≤ℤ kept_chunks mode (pos n)) × (kept_chunks mode (pos n) ≤ℤ pos (2 ^ 59))
  unfolding kept_chunks total_chunks_using_num_chunks ◌+ℤ◌
  total_small mode n l u = elim (Bool-cases (is_no_treasure mode)) [
    | inl none ↦ rw none (omega arith, omega arith)
    | inr treasures ↦ rw treasures (ground arith)
  ]

  begun_InOrder :
      (u : UploadSession)
      → pos 1 ≤ℤ u.num_chunks
      → u.num_chunks ≤ℤ pos (2 ^ 59)
      → (u.type ≡ session_type_alpha) ⊎ (u.type ≡ session_type_beta)
      → InOrder (initial_index u)
  unfolding initial_index
  begun_InOrder u l h (inl alpha) = rw alpha (record {
    some_chunks = l;
    few_chunks = h;
    order = inl (refl, (omega arith, omega arith, omega arith));
  })
  begun_InOrder u l h (inr beta) =
      let last : add64 u.num_chunks (negsuc 0) ≡ u.num_chunks +ℤ negsuc 0 =
        add64_small u.num_chunks (negsuc 0) (omega (int_laws, parts_exclusive u.num_chunks))
          (omega arith) in
      rw beta (record {
        some_chunks = l;
        few_chunks = h;
        order =
            inr (
              refl,
              (rw last (omega int_laws), rw last (omega int_laws), rw last (omega int_laws)),
            );
      })

  made_type :
      (mode : BrokerMode) (payment : PaymentMode) (u : UploadSession)
      → ((before_create mode payment u).type ≡ session_type_alpha)
        ⊎ ((before_create mode payment u).type ≡ session_type_beta)
  unfolding before_create
  made_type mode payment u = elim (Bool-cases (eqb_ℤ u.type session_type_beta)) [
    | inl beta ↦ rw beta (inr ((eqb_ℤ_iff u.type session_type_beta).0 beta))
    | inr other ↦ rw other (inl refl)
  ]

  made_chunks :
      (mode : BrokerMode) (payment : PaymentMode) (u : UploadSession)
      → (before_create mode payment u).num_chunks ≡ u.num_chunks
  unfolding before_create
  made_chunks mode payment u = refl

  -- A session that StartUploadSession could create, for a file of at least one and at most 2^50
  -- chunks, has its indexes in order, in every mode and whatever type the request names.
  pub start_upload_session-InOrder :
      (mode : BrokerMode) (payment : PaymentMode) (u : UploadSession) (db : Db) (n : ℕ)
      → u.num_chunks ≡ pos n
      → 1 ≤ n
      → n ≤ 2 ^ 50
      → (start_upload_session mode payment u db).0 ≡ true
      → InOrder (start_upload_session mode payment u db).1
  unfolding start_upload_session
  start_upload_session-InOrder mode payment u db n en l h fine =
      let made = before_create mode payment (record u { total_cost = cost u }) in
      let keyed = record made { eth_private_key = encrypt made } in
      let sized = record keyed { num_chunks = kept_chunks mode keyed.num_chunks } in
      let chunks : made.num_chunks ≡ pos n =
        made_chunks mode payment (record u { total_cost = cost u }) ∙ en in
      let (low, high) = total_small mode n l h in
      let started : InOrder (initial_index sized) =
        begun_InOrder sized (rw chunks low) (rw chunks high)
          (made_type mode payment (record u { total_cost = cost u })) in
      elim (Bool-cases (create made db).0) [
        | inl made_it ↦ rw made_it started
        | inr failed ↦ absurd (ground (arith, failed, fine))
      ]
