-- ===== src/Utils/Keys.antt =====
-- utils/kv_store.go: what is stored of a chunk, and the keys under which it is stored.
pub mod Decimal
pub mod RoundTrip
pub mod Bulk
mod Tests
use brokernode.Prelude.{
  ℕ, zero, suc, ◌+◌, ◌-◌, Option, none, some, List, [], ◌∷◌, ◌++◌, ◌==◌, if◌then◌else◌, Bool,
}
use brokernode.Prelude.Int.{ℤ, pos, negsuc, eqb_ℤ, ltb_ℤ, ◌-ℤ◌, pos_part, neg_part}
use brokernode.Prelude.Word.{add64}
use brokernode.Prelude.Bytes.{Bytes, codes}
use Decimal.{format_int, parse_int}

pub record ChunkData : Type 0 where
  pub address : Bytes
  pub hash : Bytes
  pub message : Bytes
  pub raw_message : Bytes
  pub idx : ℤ
  pub genesis_hash : Bytes

abbrev pub key_delimiter : ℕ
key_delimiter = b'_'

-- The loop of buildBadgerName, after names[0]. Every caller in the program gives a first name.
unfoldable pub build_badger_name : Bytes → List Bytes → Bytes → Bytes
build_badger_name return_name [] separator = return_name
build_badger_name return_name (name ∷ names) separator =
    build_badger_name (return_name ++ (separator ++ name)) names separator

-- GetBadgerDirName
unfoldable pub get_badger_dir_name : Bytes → List Bytes → Bytes
unfolding build_badger_name
get_badger_dir_name dir dirs = build_badger_name dir dirs (codes "/")

-- GetBadgerDBName
unfoldable pub get_badger_db_name : Bytes → List Bytes → Bytes
unfolding build_badger_name
get_badger_db_name name names = build_badger_name name names (key_delimiter ∷ [])

-- GetBadgerKey
unfoldable pub get_badger_key : Bytes → List Bytes → Bytes
unfolding build_badger_name
get_badger_key name names = build_badger_name name names (key_delimiter ∷ key_delimiter ∷ [])

-- GetBadgerKey([]string{genHash, strconv.FormatInt(i, 10)})
unfoldable pub chunk_key : Bytes → ℤ → Bytes
unfolding get_badger_key
chunk_key gen_hash i = get_badger_key gen_hash (format_int i ∷ [])

-- GenerateBadgerKey of utils/utils.go
pub generate_badger_key : Bytes → Bytes → ℤ → Bytes
generate_badger_key starting_string genesis_hash chunk_idx =
    (starting_string ++ genesis_hash) ++ (codes "__" ++ format_int chunk_idx)

-- What follows the last delimiter of `rest`, or `found` where it has none.
after_last : Bytes → Bytes → Bytes
after_last found [] = found
after_last found (c ∷ rest) = after_last (if c == key_delimiter then rest else found) rest

-- GetChunkIdxFromKey; a number that does not parse is logged, and what ParseInt gave is used.
pub get_chunk_idx_from_key : Bytes → ℤ
unfolding after_last
get_chunk_idx_from_key key = parse_int (after_last key key)

-- The loop of GenerateBulkKeys, on fuel.
unfoldable pub bulk_loop : ℕ → Bytes → ℤ → ℤ → ℤ → List Bytes
bulk_loop zero gen_hash step stop i = []
bulk_loop (suc fuel) gen_hash step stop i =
    let rest = chunk_key gen_hash i ∷ bulk_loop fuel gen_hash step stop (add64 i step) in
    if eqb_ℤ i stop then [] else rest

-- How far apart two indexes are.
abbrev pub distance : ℤ → ℤ → ℕ
distance a b = (pos_part (a -ℤ b) + neg_part (a -ℤ b))

-- GenerateBulkKeys. The fuel is one more than the number of keys, which lie between the two
-- indexes, both included; the last `else` of the source, for indexes that do not compare, is not
-- reached.
unfoldable pub generate_bulk_keys : Bytes → ℤ → ℤ → List Bytes
unfolding bulk_loop
generate_bulk_keys gen_hash starting_idx ending_idx =
    let fuel = distance starting_idx ending_idx + 2 in
    let up = bulk_loop fuel gen_hash (pos 1) (add64 ending_idx (pos 1)) starting_idx in
    let down = bulk_loop fuel gen_hash (negsuc 0) (add64 ending_idx (negsuc 0)) starting_idx in
    if eqb_ℤ starting_idx ending_idx
    then chunk_key gen_hash starting_idx ∷ []
    else if ltb_ℤ starting_idx ending_idx
    then up
    else down
