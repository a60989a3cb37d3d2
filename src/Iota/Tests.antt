-- ===== src/Iota/Tests.antt =====
-- A tangle with two transactions, and the theorems at concrete inputs.
use brokernode.Iota.Treasure.{
  Found, RecentAt, find_loop, find_valid, recent_loop, verify_treasure, verify_treasure-Found,
}
use brokernode.Utils.Keys.{ChunkData}
use brokernode.Prelude.Int.{pos}
use brokernode.Prelude.{All, List, [], arith, length, refl, some, ◌∷◌, ◌≡◌, ◌≤◌, true}
use brokernode.Iota.Matches.{Given, Matching, verify_chunk_messages_match_record-Matching}
use brokernode.Iota.{
  Api, Transaction, check_tx_objects_for_match, chunks_match, contains, fetch_loop, filter_chunks,
  has_prefix, make_transaction_objects_map, objects_of, sort_loop,
  verify_chunk_messages_match_record, verify_chunks_match_record,
}
use brokernode.Prelude.Bytes.{Bytes, codes, bytes_eq}
use brokernode.Models.Session.Samples.{chunk}

abbrev abc_at : Bytes → Transaction
abc_at a = record { address = a; signature_message_fragment = codes "XXMYY"; timestamp = 100 }

-- It answers every question with one transaction at the address of the sample chunks.
abbrev small_api : Api
small_api = record {
  new_trytes = λ t. some t;
  find_transactions = λ as'. some as';
  get_trytes = λ hashes. some hashes;
  as_transaction_objects = λ trytes. some (abc_at (codes "A") ∷ []);
}

abbrev Short : Transaction → Type 0
Short t = length t.signature_message_fragment ≤ 5

small_api-Given :
    (hashes : List Bytes) → Given Short (objects_of small_api (small_api.get_trytes hashes))
small_api-Given hashes = (omega arith, tt)

abbrev two_chunks : List ChunkData
two_chunks = chunk (pos 2) ∷ record (chunk (pos 3)) { address = codes "B" } ∷ []

one_is_there : (verify_chunk_messages_match_record small_api two_chunks).0 ≡ record {
  matches_tangle = chunk (pos 2) ∷ [];
  does_not_match_tangle = [];
  not_attached = record (chunk (pos 3)) { address = codes "B" } ∷ [];
}
unfolding verify_chunk_messages_match_record verify_chunks_match_record filter_chunks fetch_loop
    sort_loop make_transaction_objects_map check_tx_objects_for_match chunks_match contains
    has_prefix bytes_eq
one_is_there = refl

verify_chunk_messages_match_record-Matching_example :
    All
      (Matching small_api Short)
      (verify_chunk_messages_match_record small_api two_chunks).0.matches_tangle
verify_chunk_messages_match_record-Matching_example =
    verify_chunk_messages_match_record-Matching small_api Short small_api-Given two_chunks

known : find_valid small_api (codes "A" ∷ []) ≡ some (codes "A" ∷ [], abc_at (codes "A") ∷ [])
unfolding find_loop
known = refl

verdict : verify_treasure small_api 50 (codes "A" ∷ []) ≡ (true, true)
unfolding verify_treasure find_loop recent_loop bytes_eq
verdict = refl

verify_treasure-Found_example :
    Found (codes "A" ∷ []) (abc_at (codes "A") ∷ [])
    × RecentAt 50 (codes "A") (abc_at (codes "A") ∷ [])
verify_treasure-Found_example =
    verify_treasure-Found small_api 50 (codes "A") [] (abc_at (codes "A") ∷ []) known verdict
