-- ===== src/Attach/Handled.antt =====
-- jobs/process_unassigned_chunks.go: the treasures of a batch, which are asked for on the tangle, and
-- the rows that are staged for them.
pub mod Parts
use brokernode.Utils.Indexes.{total_chunks_using_num_chunks, file_sector_in_chunk_size}
use brokernode.Prelude.{
  Bool, List, Option, [], false, if◌then◌else◌, none, not, some, true, ℕ, ◌++◌, ◌==◌, ◌||◌, ◌∷◌,
}
use brokernode.Attach.{last_of, in_range, length}
use brokernode.Prelude.Int.{ℤ, pos, eqb_ℤ, min_ℤ, max_ℤ}
use brokernode.Prelude.Bytes.{Bytes, bytes_eq}
use brokernode.Prelude.Table.{keep}
use brokernode.Utils.Keys.{ChunkData}
use brokernode.Models.Session.{UploadSession, TreasureMap, get_treasure_map, get_treasure_indexes}
use brokernode.Models.Session.Progress.{member}
use brokernode.Models.Session.Stores.{Stores, Works, move_chunks_to_completed}
use brokernode.Utils.Mode.{BrokerMode, prod_mode}
use brokernode.Utils.Float.{ceil_div_ℤ}

-- What the job asks of the tangle: NewTrytes, and whether FindTransactions of one address has it in
-- its answer. `none` is an error.
pub record Tangle : Type 0 where
  pub new_trytes : Bytes → Option Bytes
  pub find_transaction : Bytes → Option Bool

abbrev asked_at : Tangle → Option Bytes → Option Bool
asked_at tg none = none
asked_at tg (some address) = tg.find_transaction address

abbrev pub asked : Tangle → ChunkData → Option Bool
asked tg c = asked_at tg (tg.new_trytes c.address)

-- The chunks to attach, the treasures to attach, and the stores.
pub record Handled : Type 0 where
  pub to_attach : List ChunkData
  pub treasures_to_attach : List ChunkData
  pub stores : Stores

abbrev pub handled : List ChunkData → List ChunkData → Stores → Handled
handled cs ts st = record { to_attach = cs; treasures_to_attach = ts; stores = st }

module _ (tg : Tangle) (w : Works) (u : UploadSession) where
  -- One round of the loop; `none` is an early return.
  abbrev pub on_treasure : Option Bool → ChunkData → Handled → Option Handled
  on_treasure none c h = none
  on_treasure (some true) c h =
      some (record h { stores = move_chunks_to_completed w u (c ∷ []) h.stores })
  on_treasure (some false) c h =
      some (record h { treasures_to_attach = h.treasures_to_attach ++ c ∷ [] })

  abbrev pub handle_one : (ℤ → Bool) → ChunkData → Handled → Option Handled
  handle_one is_treasure c h =
      if is_treasure c.idx
      then on_treasure (asked tg c) c h
      else some (record h { to_attach = h.to_attach ++ c ∷ [] })

  -- An error gives all chunks of the batch back, as they were; what was moved stays moved.
  abbrev pub or_all : List ChunkData → Handled → Option Handled → (Handled → Handled) → Handled
  or_all all h none next = record h { to_attach = all; treasures_to_attach = [] }
  or_all all h (some h') next = next h'

  -- The loop.
  unfoldable pub handle_loop : (ℤ → Bool) → List ChunkData → List ChunkData → Handled → Handled
  handle_loop is_treasure all [] h = h
  handle_loop is_treasure all (c ∷ cs) h =
      or_all all h (handle_one is_treasure c h) (λ h'. handle_loop is_treasure all cs h')

  -- The treasures' indexes between those of the first and the last chunk.
  abbrev pub treasures_between : ChunkData → List ChunkData → List ℤ
  treasures_between c cs =
      let last = last_of c cs in
      keep (in_range (min_ℤ c.idx last.idx) (max_ℤ c.idx last.idx)) (get_treasure_indexes u).0

  abbrev pub handle_places : List ℤ → List ChunkData → Stores → Handled
  handle_places [] cs st = handled cs [] st
  handle_places (t ∷ ts) cs st = handle_loop (member (t ∷ ts)) cs cs (handled [] [] st)

  -- HandleTreasureChunks
  unfoldable pub handle_treasure_chunks : List ChunkData → Stores → Handled
  unfolding handle_loop
  handle_treasure_chunks [] st = handled [] [] st
  handle_treasure_chunks (c ∷ cs) st = handle_places (treasures_between c cs) (c ∷ cs) st

-- The columns that StageTreasures fills in.
pub record Staged : Type 0 where
  pub genesis_hash : Bytes
  pub eth_addr : Bytes
  pub eth_key : Bytes
  pub address : Bytes
  pub message : Bytes
  pub prl_amount : ℤ

-- What StageTreasures uses of other code: the decryption of keys, the address of a key, the wei of a
-- treasure by math/big's floats from a session's cost and the number of its sectors, and the test
-- wallet's key of the environment.
pub record Wallets : Type 0 where
  pub decrypt : Bytes → Bytes
  pub address_of_key : Bytes → Bytes
  pub wei_per_treasure : ℕ → ℕ → ℤ
  pub test_mode_wallet_key : Bytes

-- GetPRLsPerTreasure and ConvertToWeiUnit: `none` for an error.
abbrev pub prl_in_wei : Wallets → UploadSession → Option ℤ
unfolding total_chunks_using_num_chunks
prl_in_wei ws u =
    let (indexes, fine) = get_treasure_indexes u in
    if not fine
    then none
    else if eqb_ℤ
        (ceil_div_ℤ (total_chunks_using_num_chunks u.num_chunks) file_sector_in_chunk_size)
        (pos (length indexes))
    then some (ws.wei_per_treasure u.total_cost (length indexes))
    else none

-- The map of the treasures by their indexes: the last one with an index stays.
abbrev or_entry : Option TreasureMap → TreasureMap → ℤ → Option TreasureMap
or_entry (some s) t i = some s
or_entry none t i = if eqb_ℤ t.idx i then some t else none

abbrev pub entry_at : List TreasureMap → ℤ → Option TreasureMap
entry_at [] i = none
entry_at (t ∷ ts) i = or_entry (entry_at ts i) t i

abbrev staged_of : Wallets → UploadSession → ℤ → ChunkData → Option TreasureMap → List Staged
staged_of ws u wei c none = []
staged_of ws u wei c (some t) =
    let key = ws.decrypt t.key in
    if bytes_eq key ws.test_mode_wallet_key
    then []
    else record {
      genesis_hash = u.genesis_hash;
      eth_addr = ws.address_of_key key;
      eth_key = key;
      address = c.address;
      message = c.message;
      prl_amount = wei;
    }
      ∷ []

abbrev stage_loop : Wallets → UploadSession → List TreasureMap → ℤ → List ChunkData → List Staged
stage_loop ws u ts wei [] = []
stage_loop ws u ts wei (c ∷ cs) =
    staged_of ws u wei c (entry_at ts c.idx) ++ stage_loop ws u ts wei cs

abbrev stage_at :
    Wallets → UploadSession → List TreasureMap → List ChunkData → Option ℤ → List Staged
stage_at ws u ts chunks none = []
stage_at ws u ts chunks (some wei) = stage_loop ws u ts wei chunks

abbrev is_prod : BrokerMode → Bool
is_prod prod_mode = true
is_prod _ = false

-- StageTreasures: the rows that it creates.
unfoldable pub stage_treasures : BrokerMode → Wallets → List ChunkData → UploadSession → List Staged
stage_treasures mode ws chunks u =
    let (ts, fine) = get_treasure_map u in
    let rows = stage_at ws u ts chunks (prl_in_wei ws u) in
    if length chunks == 0 || not (is_prod mode)
    then []
    else if not fine || (length ts == 0)
    then []
    else rows
