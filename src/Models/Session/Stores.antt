-- ===== src/Models/Session/Stores.antt =====
-- models/upload_sessions.go, MoveChunksToCompleted where the data maps are in badger: chunks go from the
-- stores in progress to the completed ones. A store is what it holds under each key.
pub mod Kept
use brokernode.Prelude.{Bool, true, false, ◌&&◌, Option, none, some, List, [], ◌∷◌, if◌then◌else◌}
use brokernode.Prelude.Bytes.{Bytes, bytes_eq}
use brokernode.Prelude.Table.{for_each}
use brokernode.Utils.Keys.{ChunkData, chunk_key}
use brokernode.Models.Session.{UploadSession}

abbrev pub Store : Type 0
Store = Bytes → Option Bytes

-- The four stores of an upload.
pub record Stores : Type 0 where
  pub messages : Store
  pub hashes : Store
  pub done_messages : Store
  pub done_hashes : Store

abbrev pub put : Bytes → Option Bytes → Store → Store
put key value store = λ k. if bytes_eq k key then value else store k

-- Which of the four writes for a key badger carries out; one that fails leaves its store as it is.
pub record Works : Type 0 where
  pub sets_message : Bytes → Bool
  pub sets_hash : Bytes → Bool
  pub deletes_message : Bytes → Bool
  pub deletes_hash : Bytes → Bool

-- BatchSetToUniqueDB and BatchDeleteFromUniqueDB of one key.
abbrev pub write_one : Bool → Bytes → Option Bytes → Store → Store
write_one works key value store = if works then put key value store else store

module _ (w : Works) (u : UploadSession) where
  -- The body of the loop.
  unfoldable pub move_chunk : ChunkData → Stores → Stores
  move_chunk c st =
      let key = chunk_key u.genesis_hash c.idx in
      let saved = w.sets_message key && w.sets_hash key in
      record {
        done_messages = write_one (w.sets_message key) key (some c.raw_message) st.done_messages;
        done_hashes = write_one (w.sets_hash key) key (some c.hash) st.done_hashes;
        messages = write_one (saved && w.deletes_message key) key none st.messages;
        hashes = write_one (saved && w.deletes_hash key) key none st.hashes;
      }

  -- MoveChunksToCompleted
  unfoldable pub move_chunks_to_completed : List ChunkData → Stores → Stores
  unfolding move_chunk
  move_chunks_to_completed chunks st = for_each move_chunk chunks st
