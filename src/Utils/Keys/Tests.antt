-- ===== src/Utils/Keys/Tests.antt =====
-- Keys of small files, and the theorems at concrete inputs.
use brokernode.Prelude.{◌≡◌, refl, [], ◌∷◌, arith}
use brokernode.Prelude.Int.{pos, ◌-ℤ◌, ◌+ℤ◌}
use brokernode.Prelude.Word.{wrap64}
use brokernode.Prelude.Bytes.{codes}
use brokernode.Utils.Keys.{
  chunk_key, get_chunk_idx_from_key, generate_bulk_keys, get_badger_dir_name, get_badger_db_name,
}
use brokernode.Utils.Keys.Decimal.{format_int, parse_int}
use brokernode.Utils.Keys.RoundTrip.{get_chunk_idx_from_key-chunk_key}
use brokernode.Utils.Keys.Bulk.{AreKeys, generate_bulk_keys-AreKeys}

key_of_twelve : chunk_key (codes "abc") (pos 12) ≡ codes "abc__12"
unfolding chunk_key format_int
key_of_twelve = refl

directories :
    get_badger_dir_name (codes "current") (codes "abc" ∷ codes "hash" ∷ [])
    ≡ codes "current/abc/hash"
unfolding get_badger_dir_name
directories = refl

database : get_badger_db_name (codes "current") (codes "abc" ∷ []) ≡ codes "current_abc"
unfolding get_badger_db_name
database = refl

parse_not_a_number : parse_int (codes "12x") ≡ pos 0
unfolding parse_int
parse_not_a_number = refl

downwards :
    generate_bulk_keys (codes "g") (pos 2) (pos 0) ≡ codes "g__2" ∷ codes "g__1" ∷ codes "g__0" ∷ []
unfolding generate_bulk_keys chunk_key format_int ◌-ℤ◌ ◌+ℤ◌ wrap64
downwards = refl

get_chunk_idx_from_key-chunk_key_example :
    get_chunk_idx_from_key (chunk_key (codes "a_b") (pos 1000000)) ≡ pos 1000000
get_chunk_idx_from_key-chunk_key_example =
    get_chunk_idx_from_key-chunk_key (codes "a_b") (pos 1000000) (omega arith) (omega arith)

generate_bulk_keys-AreKeys_example :
    AreKeys (codes "g") 7 3 (generate_bulk_keys (codes "g") (pos 7) (pos 3))
generate_bulk_keys-AreKeys_example =
    generate_bulk_keys-AreKeys (codes "g") 7 3 (omega arith) (omega arith)
