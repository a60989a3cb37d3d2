-- ===== src/Verify/Ends.antt =====
-- jobs/verify_data_maps.go: the loop over the keys ends and asks for all of them.
use brokernode.Prelude.Slices.{take-slice_end}
use brokernode.Verify.{slice_end, keys_loop, get_chunks_to_verify}
use brokernode.Prelude.{
  Bool-cases, List, Option, [], ap, append_assoc, arith, if◌then◌else◌, inl, inr, ltb, ltb→lt, refl,
  some, suc, sym, ℕ, ◌++◌, ◌+◌, ◌-◌, ◌<◌, ◌∙◌, ◌∷◌, ◌≡◌, length, take, drop, drop_all, leb,
  drop-drop, take-append-drop, zero,
}
use brokernode.Prelude.Bytes.{Bytes}
use brokernode.Utils.Keys.{ChunkData, generate_bulk_keys}
use brokernode.Models.Session.{UploadSession, session_type_alpha}
use brokernode.Prelude.Int.{pos, negsuc, eqb_ℤ}
use brokernode.Prelude.Word.{add64}

-- The keys that getChunksToVerify asks for.
abbrev pub keys_of : UploadSession → List Bytes
keys_of u =
    generate_bulk_keys u.genesis_hash u.next_idx_to_verify
      (add64 u.next_idx_to_attach (if eqb_ℤ u.type session_type_alpha then negsuc 0 else pos 1))

module _ (at_key : Bytes → List ChunkData) where
  -- The chunks of some keys, one key after the other.
  abbrev pub at_keys : List Bytes → List ChunkData
  at_keys [] = []
  at_keys (k ∷ ks) = at_key k ++ at_keys ks

  at_keys-append : (ks ls : List Bytes) → at_keys ks ++ at_keys ls ≡ at_keys (ks ++ ls)
  at_keys-append [] ls = refl
  at_keys-append (k ∷ ks) ls =
      append_assoc (at_key k) (at_keys ks) (at_keys ls)
      ∙ ap (λ r. at_key k ++ r) (at_keys-append ks ls)

  module _ (fetch : List Bytes → Option (List ChunkData))
      (answers : (ks : List Bytes) → fetch ks ≡ some (at_keys ks)) where
    rest_of :
        (keys : List Bytes) (j : ℕ) (more : Option (List ChunkData))
        → (j < length keys → more ≡ some (at_keys (drop j keys)))
        → (if ltb j (length keys) then more else some []) ≡ some (at_keys (drop j keys))
    rest_of keys j more h = elim (Bool-cases (ltb j (length keys))) [
      | inl on ↦ rw on (h (ltb→lt j (length keys) on))
      | inr off ↦ rw off (ap (λ ks. some (at_keys ks)) (sym (drop_all j keys (ground arith))))
    ]

    two_slices :
        (keys : List Bytes) (i : ℕ)
        → at_keys (take (slice_end 1000 (length keys) i - i) (drop i keys))
            ++ at_keys (drop (i + 1000) keys)
          ≡ at_keys (drop i keys)
    two_slices keys i =
        rw (take-slice_end 1000 keys i, ← drop-drop 1000 i keys)
          (at_keys-append (take 1000 (drop i keys)) (drop 1000 (drop i keys))
            ∙ ap at_keys (take-append-drop 1000 (drop i keys)))

    round_lem :
        (fuel : ℕ) (keys : List Bytes) (i : ℕ)
        → (i + 1000 < length keys
            → keys_loop fetch fuel keys (i + 1000) ≡ some (at_keys (drop (i + 1000) keys)))
        → keys_loop fetch (suc fuel) keys i ≡ some (at_keys (drop i keys))
    unfolding keys_loop
    round_lem fuel keys i next = elim (Bool-cases (leb (slice_end 1000 (length keys) i) i)) [
      | inl past ↦
          rw (past, keys_loop)
            (ap (λ ks. some (at_keys ks)) (sym (drop_all i keys (ground (arith, past)))))
      | inr more ↦
          let rest = rest_of keys (i + 1000) (keys_loop fetch fuel keys (i + 1000)) next in
          rw
            (
              more,
              keys_loop,
              answers (take (slice_end 1000 (length keys) i - i) (drop i keys)),
              rest,
            )
            (ap some (two_slices keys i))
    ]

    keys_loop_lem :
        (fuel : ℕ) (keys : List Bytes) (i : ℕ)
        → length keys < fuel + i
        → keys_loop fetch (suc fuel) keys i ≡ some (at_keys (drop i keys))
    keys_loop_lem zero keys i f = round_lem zero keys i (λ h. absurd (omega arith))
    keys_loop_lem (suc fuel) keys i f =
        round_lem (suc fuel) keys i (λ h. keys_loop_lem fuel keys (i + 1000) (omega arith))

    -- Where the store answers for each key by itself, getChunksToVerify ends and gives what is stored
    -- under all keys from the next index to verify to the one before the next index to
    -- attach, in their order, though it asks for a thousand at a time.
    pub get_chunks_to_verify-at_keys :
        (u : UploadSession)
        → get_chunks_to_verify fetch (length (keys_of u) + 2) u ≡ some (at_keys (keys_of u))
    unfolding get_chunks_to_verify
    get_chunks_to_verify-at_keys u =
        ap (λ n. keys_loop fetch n (keys_of u) 0) (two_more (length (keys_of u)))
        ∙ keys_loop_lem (length (keys_of u) + 1) (keys_of u) 0 (omega arith)
      where
        two_more : (n : ℕ) → n + 2 ≡ suc (n + 1)
        two_more n = omega arith
