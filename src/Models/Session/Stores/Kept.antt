-- ===== src/Models/Session/Stores/Kept.antt =====
-- models/upload_sessions.go, MoveChunksToCompleted: no chunk is lost on the way.
use brokernode.Prelude.{
  ◌∙◌, ◌≡◌, refl, ◌⊎◌, inl, inr, Bool, true, false, Option, some, List, [], ◌∷◌, Bool-cases,
}
use brokernode.Prelude.Bytes.{Bytes, bytes_eq}
use brokernode.Prelude.Table.{there, Any, here}
use brokernode.Utils.Keys.{ChunkData, chunk_key}
use brokernode.Models.Session.{UploadSession}
use brokernode.Models.Session.Stores.{
  move_chunks_to_completed, Store, Stores, Works, write_one, move_chunk,
}

module _ (w : Works) (u : UploadSession) (k : Bytes) where
  -- Some chunk of the list has the key k, and its message, or its hash, is what the store holds.
  pub MessageFrom : List ChunkData → Stores → Type 0
  MessageFrom cs st =
      Any
        (λ (c : ChunkData).
          (bytes_eq k (chunk_key u.genesis_hash c.idx) ≡ true)
          × (st.done_messages k ≡ some c.raw_message))
        cs

  pub HashFrom : List ChunkData → Stores → Type 0
  HashFrom cs st =
      Any
        (λ (c : ChunkData).
          (bytes_eq k (chunk_key u.genesis_hash c.idx) ≡ true) × (st.done_hashes k ≡ some c.hash))
        cs

  -- What has become of the key from `st` to `st'`, when the chunks of `cs` were moved.
  pub record Kept (cs : List ChunkData) (st st' : Stores) : Type 0 where
    pub message : (st'.done_messages k ≡ st.done_messages k) ⊎ MessageFrom cs st'
    pub hash : (st'.done_hashes k ≡ st.done_hashes k) ⊎ HashFrom cs st'
    pub still_there :
        ((st'.messages k ≡ st.messages k) × (st'.hashes k ≡ st.hashes k))
        ⊎ (MessageFrom cs st' × HashFrom cs st')

  write_other :
      (works : Bool) (key : Bytes) (value : Option Bytes) (store : Store)
      → bytes_eq k key ≡ false
      → write_one works key value store k ≡ store k
  write_other true key value store h = rw h refl
  write_other false key value store h = refl

  -- One round of the loop.
  one_round : (c : ChunkData) (st : Stores) → Kept (c ∷ []) st (move_chunk w u c st)
  unfolding move_chunk MessageFrom HashFrom
  one_round c st =
      let key = chunk_key u.genesis_hash c.idx in
      elim (Bool-cases (bytes_eq k key)) [
        | inr other ↦ record {
          message = inl (write_other _ key _ st.done_messages other);
          hash = inl (write_other _ key _ st.done_hashes other);
          still_there =
              inl (write_other _ key _ st.messages other, write_other _ key _ st.hashes other);
        }
        | inl mine ↦ elim (Bool-cases (w.sets_message key)) [
          | inr no_message ↦ elim (Bool-cases (w.sets_hash key)) [
            | inr no_hash ↦ rw no_message (
                rw no_hash
                  (record { message = inl refl; hash = inl refl; still_there = inl (refl, refl) }))
            | inl a_hash ↦ rw no_message (
                rw a_hash (record {
                  message = inl refl;
                  hash = inr (here (mine, rw mine refl));
                  still_there = inl (refl, refl);
                }))
          ]
          | inl a_message ↦ elim (Bool-cases (w.sets_hash key)) [
            | inr no_hash ↦ rw a_message (
                rw no_hash (record {
                  message = inr (here (mine, rw mine refl));
                  hash = inl refl;
                  still_there = inl (refl, refl);
                }))
            | inl a_hash ↦ rw a_message (
                rw a_hash (record {
                  message = inr (here (mine, rw mine refl));
                  hash = inr (here (mine, rw mine refl));
                  still_there = inr (here (mine, rw mine refl), here (mine, rw mine refl));
                }))
          ]
        ]
      ]

  message_on :
      (c : ChunkData) (cs : List ChunkData) (st st' : Stores)
      → MessageFrom (c ∷ []) st
      → (st'.done_messages k ≡ st.done_messages k) ⊎ MessageFrom cs st'
      → MessageFrom (c ∷ cs) st'
  unfolding MessageFrom
  message_on c cs st st' (here (mine, e)) (inl same) = here (mine, same ∙ e)
  message_on c cs st st' (there none_left) (inl same) = elim none_left [ ]
  message_on c cs st st' h (inr later) = there later

  hash_on :
      (c : ChunkData) (cs : List ChunkData) (st st' : Stores)
      → HashFrom (c ∷ []) st
      → (st'.done_hashes k ≡ st.done_hashes k) ⊎ HashFrom cs st'
      → HashFrom (c ∷ cs) st'
  unfolding HashFrom
  hash_on c cs st st' (here (mine, e)) (inl same) = here (mine, same ∙ e)
  hash_on c cs st st' (there none_left) (inl same) = elim none_left [ ]
  hash_on c cs st st' h (inr later) = there later

  message_both :
      (c : ChunkData) (cs : List ChunkData) (st mid st' : Stores)
      → (mid.done_messages k ≡ st.done_messages k) ⊎ MessageFrom (c ∷ []) mid
      → (st'.done_messages k ≡ mid.done_messages k) ⊎ MessageFrom cs st'
      → (st'.done_messages k ≡ st.done_messages k) ⊎ MessageFrom (c ∷ cs) st'
  unfolding MessageFrom
  message_both c cs st mid st' (inl e) (inl e') = inl (e' ∙ e)
  message_both c cs st mid st' (inl e) (inr later) = inr (there later)
  message_both c cs st mid st' (inr m) later = inr (message_on c cs mid st' m later)

  hash_both :
      (c : ChunkData) (cs : List ChunkData) (st mid st' : Stores)
      → (mid.done_hashes k ≡ st.done_hashes k) ⊎ HashFrom (c ∷ []) mid
      → (st'.done_hashes k ≡ mid.done_hashes k) ⊎ HashFrom cs st'
      → (st'.done_hashes k ≡ st.done_hashes k) ⊎ HashFrom (c ∷ cs) st'
  unfolding HashFrom
  hash_both c cs st mid st' (inl e) (inl e') = inl (e' ∙ e)
  hash_both c cs st mid st' (inl e) (inr later) = inr (there later)
  hash_both c cs st mid st' (inr m) later = inr (hash_on c cs mid st' m later)

  -- A round, and the rest of the loop.
  then_rest :
      (c : ChunkData) (cs : List ChunkData) (st mid st' : Stores)
      → Kept (c ∷ []) st mid
      → Kept cs mid st'
      → Kept (c ∷ cs) st st'
  unfolding MessageFrom HashFrom
  then_rest c cs st mid st' first rest = record {
    message = message_both c cs st mid st' first.message rest.message;
    hash = hash_both c cs st mid st' first.hash rest.hash;
    still_there = elim rest.still_there [
      | inr (m, h) ↦ inr (there m, there h)
      | inl (em, eh) ↦ elim first.still_there [
        | inl (em', eh') ↦ inl (em ∙ em', eh ∙ eh')
        | inr (m, h) ↦
            inr (message_on c cs mid st' m rest.message, hash_on c cs mid st' h rest.hash)
      ]
    ];
  }

  -- Whichever writes badger carries out, after MoveChunksToCompleted every key of the upload is where
  -- it was in both stores in progress, or the completed stores hold under it the message of a chunk
  -- that was moved and the hash of one; and a completed store loses nothing, since what it holds under
  -- a key is what it held before or comes from a chunk that was moved.
  pub move_chunks_to_completed-Kept :
      (cs : List ChunkData) (st : Stores) → Kept cs st (move_chunks_to_completed w u cs st)
  unfolding move_chunks_to_completed
  move_chunks_to_completed-Kept [] st = record {
    message = inl refl;
    hash = inl refl;
    still_there = inl (refl, refl);
  }
  move_chunks_to_completed-Kept (c ∷ cs) st =
      then_rest c cs st (move_chunk w u c st) _ (one_round c st)
        (move_chunks_to_completed-Kept cs (move_chunk w u c st))
