-- ===== src/Models/Session/Selection/Chunks.antt =====
-- models/upload_sessions.go: which chunks GetUnassignedChunksBySession asks for, and what
-- GetChunkForWebnodePoW hands out and writes.
use brokernode.Prelude.{
  ℕ, ◌+◌, ◌-◌, ◌^◌, ◌≤◌, ◌<◌, ◌≡◌, refl, ◌∙◌, ap, true, false, List, ◌∷◌, some, ltb, if◌then◌else◌,
  arith,
}
use brokernode.Prelude.Int.{ℤ, pos, negsuc, pos_part, neg_part, ◌-ℤ◌, ltb_ℤ, int_laws, eq_of_parts}
use brokernode.Prelude.Word.{add64, add64_small, wrap64, wrap64_id}
use brokernode.Prelude.Bytes.{Bytes}
use brokernode.Utils.Keys.{ChunkData}
use brokernode.Utils.Keys.Bulk.{AreKeys, generate_bulk_keys-AreKeys}
use brokernode.Models.Session.{UploadSession, session_type_alpha, session_type_beta}
use brokernode.Models.Session.Selection.{
  is_alpha, stop_chunk_idx, unassigned_keys, takes_from, pow_loop, get_chunk_for_webnode_pow,
}

-- The last index asked for on the alpha broker.
abbrev pub stop_up : ℕ → ℕ → ℕ → ℕ
stop_up n attach offset = if ltb (n - 1) (attach + offset) then n - 1 else attach + offset

-- The last index asked for on the beta broker: subtraction on the natural numbers stops at 0.
abbrev pub stop_down : ℕ → ℕ → ℕ
stop_down attach offset = attach - offset

floor_at_zero :
    (z : ℤ) (a o : ℕ)
    → pos_part z + o ≡ neg_part z + a
    → (if ltb_ℤ z (pos 0) then pos 0 else z) ≡ pos (a - o)
floor_at_zero (pos m) a o h =
    let same : m ≡ a - o = omega (arith, h) in
    let up : ltb_ℤ (pos m) (pos 0) ≡ false = ground arith in rw up (ap pos same)
floor_at_zero (negsuc m) a o h =
    let same : 0 ≡ a - o = omega (arith, h) in
    let down : ltb_ℤ (negsuc m) (pos 0) ≡ true = ground arith in rw down (ap pos same)

module _ (u : UploadSession) (n attach offset : ℕ) where
  stop_alpha :
      u.type ≡ session_type_alpha
      → u.num_chunks ≡ pos n
      → u.next_idx_to_attach ≡ pos attach
      → attach < n
      → n ≤ 2 ^ 60
      → offset ≤ 2 ^ 60
      → stop_chunk_idx u (pos offset) ≡ pos (stop_up n attach offset)
  unfolding stop_chunk_idx
  stop_alpha ty en ea h hn ho =
      let alpha : is_alpha u ≡ true = rw ty refl in
      let up : add64 (pos attach) (pos offset) ≡ pos (attach + offset) =
        add64_small (pos attach) (pos offset) (omega arith) (omega arith)
        ∙ eq_of_parts _ _ (omega int_laws) in
      let last : add64 (pos n) (negsuc 0) ≡ pos (n - 1) =
        add64_small (pos n) (negsuc 0) (omega arith) (omega arith)
        ∙ eq_of_parts _ _ (omega int_laws) in
      rw alpha (rw en (rw ea (rw up (rw last (ground arith)))))

  -- On the alpha broker, for a session with chunks left to attach and at most 2^60 chunks, the keys
  -- asked for are those of the chunks from the next index to `offset` further, or to the last chunk,
  -- both included: one more than `offset` where there are that many.
  pub unassigned_keys-AreKeys_alpha :
      u.type ≡ session_type_alpha
      → u.num_chunks ≡ pos n
      → u.next_idx_to_attach ≡ pos attach
      → attach < n
      → n ≤ 2 ^ 60
      → offset ≤ 2 ^ 60
      → AreKeys u.genesis_hash attach (stop_up n attach offset) (unassigned_keys u (pos offset))
  unfolding unassigned_keys
  unassigned_keys-AreKeys_alpha ty en ea h hn ho = rw (stop_alpha ty en ea h hn ho) (
      rw ea (
        generate_bulk_keys-AreKeys u.genesis_hash attach (stop_up n attach offset) (omega arith)
          (ground arith)))

  stop_beta :
      u.type ≡ session_type_beta
      → u.next_idx_to_attach ≡ pos attach
      → attach ≤ 2 ^ 60
      → offset ≤ 2 ^ 60
      → stop_chunk_idx u (pos offset) ≡ pos (stop_down attach offset)
  unfolding stop_chunk_idx
  stop_beta ty ea ha ho =
      let beta : is_alpha u ≡ false = rw ty refl in
      let down : wrap64 (pos attach -ℤ pos offset) ≡ pos attach -ℤ pos offset =
        wrap64_id (pos attach -ℤ pos offset) (omega int_laws) (omega int_laws) in
      rw beta
        (rw ea (rw down (floor_at_zero (pos attach -ℤ pos offset) attach offset (omega int_laws))))

  -- On the beta broker, for an index that is not negative, the keys asked for are those of the chunks
  -- from the next index down to `offset` before it, or to the first chunk, both included.
  pub unassigned_keys-AreKeys_beta :
      u.type ≡ session_type_beta
      → u.next_idx_to_attach ≡ pos attach
      → attach ≤ 2 ^ 60
      → offset ≤ 2 ^ 60
      → AreKeys u.genesis_hash attach (stop_down attach offset) (unassigned_keys u (pos offset))
  unfolding unassigned_keys
  unassigned_keys-AreKeys_beta ty ea ha ho = rw (stop_beta ty ea ha ho) (
      rw ea (
        generate_bulk_keys-AreKeys u.genesis_hash attach (stop_down attach offset) ha
          (omega arith)))

module _ {Db : Type 0} (get_single_chunk_data : Bytes → ℤ → ChunkData)
    (write : UploadSession → Db → Db) where
  pow_loop-skip :
      (u : UploadSession) (us : List UploadSession)
      → takes_from u ≡ false
      → pow_loop get_single_chunk_data (u ∷ us)
        ≡ ((pow_loop get_single_chunk_data us).0, u ∷ (pow_loop get_single_chunk_data us).1)
  unfolding pow_loop
  pow_loop-skip u us h = rw h refl

  -- GetChunkForWebnodePoW with a first ready session that has only its last chunk left: it hands out
  -- what the loop finds in the sessions after it, and writes that first session as it was, so the
  -- session whose chunk it hands out keeps its index.
  pub webnode_pow_writes_first :
      (u : UploadSession) (us : List UploadSession) (db : Db)
      → takes_from u ≡ false
      → get_chunk_for_webnode_pow get_single_chunk_data write (u ∷ us) db
        ≡ some ((pow_loop get_single_chunk_data us).0, write u db)
  unfolding get_chunk_for_webnode_pow
  webnode_pow_writes_first u us db h =
      rw (pow_loop-skip u us h, get_chunk_for_webnode_pow)
        (ap (λ r. some (r.0, write u db)) (pow_loop-skip u us h))
