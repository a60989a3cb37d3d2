-- ===== src/Models/Session/Progress/Invariant.antt =====
-- models/upload_sessions.go and jobs/verify_data_maps.go: verification never passes attachment, and
-- neither leaves the file, whatever updates a session gets, in whatever order.
use brokernode.Prelude.{
  ℕ, zero, suc, ◌+◌, ◌≤◌, ◌<◌, ◌^◌, ◌≡◌, refl, ◌⊎◌, inl, inr, Bool, true, false, List, [], ◌∷◌,
  length, arith, All, ◌∙◌,
}
use brokernode.Prelude.Int.{
  ℤ, pos, negsuc, pos_part, neg_part, ◌≤ℤ◌, ◌<ℤ◌, eqb_ℤ, min_ℤ, max_ℤ, int_laws, parts_exclusive,
  eq_of_parts,
}
use brokernode.Prelude.Bytes.{Bytes}
use brokernode.Utils.Keys.{ChunkData}
use brokernode.Models.Session.{
  UploadSession, session_type_alpha, session_type_beta, get_treasure_indexes,
}
use brokernode.Models.Session.Progress.{
  advance, update_index_with_attached_chunks, update_index_with_verified_chunks, down_grade_indexes,
  lowest, highest,
}
use brokernode.Models.Session.Progress.Scan.{walk}
use brokernode.Models.Session.Progress.Coverage.{
  is_beta, advance-Reaches, InFile, ChunksInFile, PlacesInFile, covered-InFile,
}

-- 0 ≤ verify ≤ attach ≤ chunks on the alpha broker.
abbrev pub AlphaOrder : ℤ → ℤ → ℤ → Type 0
AlphaOrder n attach verify = (pos 0 ≤ℤ verify) × (verify ≤ℤ attach) × (attach ≤ℤ n)

-- -1 ≤ attach ≤ verify < chunks on the beta broker.
abbrev pub BetaOrder : ℤ → ℤ → ℤ → Type 0
BetaOrder n attach verify = (negsuc 0 ≤ℤ attach) × (attach ≤ℤ verify) × (verify <ℤ n)

-- A file of at least one chunk and at most 2^59, and both indexes in order.
pub record InOrder (u : UploadSession) : Type 0 where
  pub some_chunks : pos 1 ≤ℤ u.num_chunks
  pub few_chunks : u.num_chunks ≤ℤ pos (2 ^ 59)
  pub order :
      ((u.type ≡ session_type_alpha)
        × AlphaOrder u.num_chunks u.next_idx_to_attach u.next_idx_to_verify)
      ⊎ ((u.type ≡ session_type_beta)
          × BetaOrder u.num_chunks u.next_idx_to_attach u.next_idx_to_verify)

-- A run of indexes in the file ends in the file, or has not begun.
run_up :
    (passes : ℤ → Bool) (n start new : ℤ) (count : ℕ)
    → ((i : ℤ) → passes i ≡ true → InFile n i)
    → ((j : ℕ) → j < count → passes (walk false start j) ≡ true)
    → new ≡ walk false start count
    → (start ≤ℤ new) × ((new ≤ℤ start) ⊎ (new ≤ℤ n))
run_up passes n start new zero inside passed e =
    let same : new ≡ start = e ∙ eq_of_parts _ _ (omega int_laws) in
    (rw same (omega arith), inl (rw same (omega arith)))
run_up passes n start new (suc k) inside passed e =
    let last = inside (walk false start k) (passed k (omega arith)) in
    (rw e (omega int_laws), inr (rw e (omega int_laws)))

run_down :
    (passes : ℤ → Bool) (n start new : ℤ) (count : ℕ)
    → ((i : ℤ) → passes i ≡ true → InFile n i)
    → ((j : ℕ) → j < count → passes (walk true start j) ≡ true)
    → new ≡ walk true start count
    → (new ≤ℤ start) × ((start ≤ℤ new) ⊎ (negsuc 0 ≤ℤ new))
run_down passes n start new zero inside passed e =
    let same : new ≡ start = e ∙ eq_of_parts _ _ (omega int_laws) in
    (rw same (omega arith), inl (rw same (omega arith)))
run_down passes n start new (suc k) inside passed e =
    let last = inside (walk true start k) (passed k (omega arith)) in
    (rw e (omega int_laws), inr (rw e (omega int_laws)))

module _ (completed_hash : ℤ → Bytes) (u : UploadSession) (chunks : List ChunkData)
    (in_file : ChunksInFile u.num_chunks chunks)
    (places : PlacesInFile u.num_chunks (get_treasure_indexes u).0)
    (few : length chunks ≤ 2 ^ 60) where
  advance_up :
      (start : ℤ)
      → u.type ≡ session_type_alpha
      → pos_part start + neg_part start ≤ 2 ^ 60
      → let new = advance completed_hash u chunks start in
        (start ≤ℤ new) × ((new ≤ℤ start) ⊎ (new ≤ℤ u.num_chunks))
  advance_up start t s =
      let alpha : is_beta u ≡ false = rw t refl in
      let r = rw alpha at (advance-Reaches completed_hash u chunks start s few) in
      run_up _ u.num_chunks start _ r.count
        (λ i e.
          covered-InFile completed_hash u.num_chunks i (get_treasure_indexes u).0 chunks in_file
            places e)
        r.passed r.ends

  advance_down :
      (start : ℤ)
      → u.type ≡ session_type_beta
      → pos_part start + neg_part start ≤ 2 ^ 60
      → let new = advance completed_hash u chunks start in
        (new ≤ℤ start) × ((start ≤ℤ new) ⊎ (negsuc 0 ≤ℤ new))
  advance_down start t s =
      let beta : is_beta u ≡ true = rw t refl in
      let r = rw beta at (advance-Reaches completed_hash u chunks start s few) in
      run_down _ u.num_chunks start _ r.count
        (λ i e.
          covered-InFile completed_hash u.num_chunks i (get_treasure_indexes u).0 chunks in_file
            places e)
        r.passed r.ends

  -- Attached chunks: only the first index moves, and away from where the session began.
  pub attached-InOrder :
      {Db : Type 0} (write : UploadSession → Db → Db) (db : Db)
      → InOrder u
      → InOrder (update_index_with_attached_chunks write completed_hash u chunks db).0
  unfolding update_index_with_attached_chunks
  attached-InOrder write db h = record {
    some_chunks = h.some_chunks;
    few_chunks = h.few_chunks;
    order = elim h.order [
      | inl (t, o) ↦
          let (grows, fits) = advance_up u.next_idx_to_attach t (
            omega (
              arith,
              o,
              h.few_chunks,
              parts_exclusive u.next_idx_to_attach,
              parts_exclusive u.num_chunks,
            )) in
          inl (t, omega (arith, o))
      | inr (t, o) ↦
          let (falls, fits) = advance_down u.next_idx_to_attach t (
            omega (
              arith,
              o,
              h.few_chunks,
              parts_exclusive u.next_idx_to_attach,
              parts_exclusive u.num_chunks,
            )) in
          inr (t, omega (arith, o))
    ];
  }

  -- Verified chunks: the second index moves, at most to where the first one is.
  pub verified-InOrder :
      {Db : Type 0} (write : UploadSession → Db → Db) (db : Db)
      → InOrder u
      → InOrder (update_index_with_verified_chunks write completed_hash u chunks db).0
  unfolding update_index_with_verified_chunks
  verified-InOrder write db h = record {
    some_chunks = h.some_chunks;
    few_chunks = h.few_chunks;
    order = elim h.order [
      | inl (t, o) ↦
          let (grows, fits) = advance_up u.next_idx_to_verify t (
            omega (
              arith,
              o,
              h.few_chunks,
              parts_exclusive u.next_idx_to_verify,
              parts_exclusive u.num_chunks,
            )) in
          let alpha : eqb_ℤ u.type session_type_alpha ≡ true = rw t refl in
          inl (t, rw alpha (ground (arith, o)))
      | inr (t, o) ↦
          let (falls, fits) = advance_down u.next_idx_to_verify t (
            omega (
              arith,
              o,
              h.few_chunks,
              parts_exclusive u.next_idx_to_verify,
              parts_exclusive u.num_chunks,
            )) in
          let beta : eqb_ℤ u.type session_type_alpha ≡ false = rw t refl in
          inr (t, rw beta (ground (arith, o)))
    ];
  }

module _ {Db : Type 0} (write : UploadSession → Db → Db) where
  pub lowest_bounds :
      (n m : ℤ) (cs : List ChunkData)
      → ChunksInFile n cs
      → pos 0 ≤ℤ m
      → (pos 0 ≤ℤ lowest write m cs)
        × (lowest write m cs ≤ℤ m)
        × All (λ (c : ChunkData). lowest write m cs ≤ℤ c.idx) cs
  unfolding lowest
  lowest_bounds n m [] h l = (l, omega arith, tt)
  lowest_bounds n m (c ∷ cs) h l =
      let (low, down, all) = lowest_bounds n (min_ℤ c.idx m) cs h.1 (ground (arith, h.0)) in
      (low, ground (arith, down), (ground (arith, down), all))

  pub highest_bounds :
      (n m : ℤ) (cs : List ChunkData)
      → ChunksInFile n cs
      → m <ℤ n
      → (highest write m cs <ℤ n)
        × (m ≤ℤ highest write m cs)
        × All (λ (c : ChunkData). c.idx ≤ℤ highest write m cs) cs
  unfolding highest
  highest_bounds n m [] h l = (l, omega arith, tt)
  highest_bounds n m (c ∷ cs) h l =
      let (top, up, all) = highest_bounds n (max_ℤ c.idx m) cs h.1 (ground (arith, h.0)) in
      (top, ground (arith, up), (ground (arith, up), all))

  -- Both indexes go back to the chunks that are not attached.
  pub down_grade-InOrder :
      (u : UploadSession) (chunks : List ChunkData) (db : Db)
      → ChunksInFile u.num_chunks chunks
      → InOrder u
      → InOrder (down_grade_indexes write u chunks db).0
  unfolding down_grade_indexes
  down_grade-InOrder u [] db c h = h
  down_grade-InOrder u (c ∷ cs) db in_file h =
      let (low, down, _) = lowest_bounds u.num_chunks c.idx (c ∷ cs) in_file (in_file.0.0) in
      let (top, up, _) = highest_bounds u.num_chunks c.idx (c ∷ cs) in_file (in_file.0.1) in
      elim h.order [
        | inl (t, o) ↦
            let alpha : eqb_ℤ u.type session_type_alpha ≡ true = rw t refl in
            rw alpha (record {
              some_chunks = h.some_chunks;
              few_chunks = h.few_chunks;
              order = inl (t, ground (arith, o, low));
            })
        | inr (t, o) ↦
            let beta : eqb_ℤ u.type session_type_alpha ≡ false = rw t refl in
            rw beta (record {
              some_chunks = h.some_chunks;
              few_chunks = h.few_chunks;
              order = inr (t, ground (arith, o, top));
            })
      ]
