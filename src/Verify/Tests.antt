-- ===== src/Verify/Tests.antt =====
-- A verification of a small session, and the theorems at concrete inputs.
use brokernode.Models.Session.{UploadSession}
use brokernode.Verify.Kept.{check_session_chunks-Legal}
use brokernode.Verify.Ends.{at_keys, get_chunks_to_verify-at_keys, keys_of}
use brokernode.Verify.{adjusted_by, check_session_chunks, get_chunks_to_verify}
use brokernode.Prelude.{List, Option, [], arith, length, refl, some, ◌+◌, ◌∷◌, ◌≡◌}
use brokernode.Prelude.Int.{pos}
use brokernode.Prelude.Bytes.{Bytes}
use brokernode.Utils.Keys.{ChunkData}
use brokernode.Models.Session.Samples.{alpha_session, chunk, log}
use brokernode.Attach.Samples.{setting, outcome, outcome-Legal, silent_api}
use brokernode.Attach.Run.{Outcome}
use brokernode.Attach.Run.Batch.{Legal, verify_chunk_messages_match_record-Filters}

-- A store that has the same chunk under every key.
abbrev same_chunk : Bytes → List ChunkData
same_chunk k = chunk (pos 1) ∷ []

abbrev full_store : List Bytes → Option (List ChunkData)
full_store ks = some (at_keys same_chunk ks)

get_chunks_to_verify-at_keys_example :
    get_chunks_to_verify full_store (length (keys_of alpha_session) + 2) alpha_session
    ≡ some (at_keys same_chunk (keys_of alpha_session))
get_chunks_to_verify-at_keys_example =
    get_chunks_to_verify-at_keys same_chunk full_store (λ ks. refl) alpha_session

check_session_chunks-Legal_example :
    let fuel = length (keys_of (adjusted_by log setting [] outcome).session) + 2 in
    (o' : Outcome (List UploadSession)) × (check_session_chunks log setting full_store fuel []
        outcome
      ≡ some o')
    × Legal (pos 10) o'
check_session_chunks-Legal_example =
    check_session_chunks-Legal log setting (pos 10) same_chunk full_store [] outcome (λ ks. refl)
      (λ k. ((omega arith, omega arith), tt))
      (verify_chunk_messages_match_record-Filters silent_api) outcome-Legal
