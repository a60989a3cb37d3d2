-- ===== src/Attach/Tests.antt =====
-- Batches of small files, and the theorems at concrete inputs.
use brokernode.Attach.Run.Batch.{
  GivesLegal, filter_and_assign_chunks_to_channels-Legal,
  verify_chunk_messages_match_record-Filters,
}
use brokernode.Attach.Run.{filter_and_assign_chunks_to_channels}
use brokernode.Prelude.Word.{wrap64}
use brokernode.Prelude.{
  All, List, [], arith, false, inl, length, map, none, not, refl, some, take, ◌*◌, ◌∷◌, ◌≡◌, ◌≢◌,
  ◌≤◌,
}
use brokernode.Attach.Verified.{
  skip_verification_of_first_chunks-apart, skip_verification_of_first_chunks-keep,
}
use brokernode.Attach.Ordered.Insert.{insert_treasure_chunks-Any}
use brokernode.Attach.Bundles.{send_chunks_lem, sent_chunks}
use brokernode.Attach.{
  Sending, bundle_size, collect, insert_between, insert_treasure_chunks, ranges, send_chunks,
  send_loop, skip_verification_of_first_chunks, skipped,
}
use brokernode.Prelude.Table.{keep, Any}
use brokernode.Prelude.Int.{pos, eqb_ℤ, ◌+ℤ◌, ◌-ℤ◌}
use brokernode.Utils.Keys.{ChunkData}
use brokernode.Models.Session.Samples.{alpha_session, beta_session, chunk, log}
use brokernode.Attach.Samples.{channel, silent_api, setting, outcome, outcome-Legal}

abbrev three_chunks : List ChunkData
three_chunks = chunk (pos 3) ∷ chunk (pos 4) ∷ chunk (pos 5) ∷ []

-- Of ten chunks the first four are not verified by the alpha broker.
skipped_of_ten :
    skip_verification_of_first_chunks three_chunks alpha_session
    ≡ (chunk (pos 3) ∷ [], chunk (pos 4) ∷ chunk (pos 5) ∷ [])
unfolding skip_verification_of_first_chunks ranges ◌-ℤ◌
skipped_of_ten = refl

four_wide :
    eqb_ℤ (ranges alpha_session).skip_verify_min_idx (ranges alpha_session).skip_verify_max_idx
    ≡ false
unfolding ranges ◌-ℤ◌
four_wide = refl

skip_verification_of_first_chunks-keep_example :
    skip_verification_of_first_chunks three_chunks alpha_session ≡ (
      keep (skipped (ranges alpha_session)) three_chunks,
      keep (λ d. not (skipped (ranges alpha_session) d)) three_chunks,
    )
skip_verification_of_first_chunks-keep_example =
    skip_verification_of_first_chunks-keep (chunk (pos 3)) (chunk (pos 4) ∷ chunk (pos 5) ∷ [])
      alpha_session four_wide
      ((omega arith, omega arith), ((omega arith, omega arith), ((omega arith, omega arith), tt)))

skip_verification_of_first_chunks-apart_example :
    All
      (λ (c : ChunkData).
        All
          (λ (d : ChunkData). c.idx ≢ d.idx)
          (skip_verification_of_first_chunks three_chunks beta_session).0)
      (skip_verification_of_first_chunks three_chunks alpha_session).0
skip_verification_of_first_chunks-apart_example =
    skip_verification_of_first_chunks-apart alpha_session beta_session three_chunks three_chunks
      refl refl refl (omega arith)

send_chunks_lem_example :
    (sends : List Sending) × (send_chunks three_chunks (channel 1 ∷ []) ≡ some sends)
    × (sent_chunks sends ≡ take (length (channel 1 ∷ []) * bundle_size) three_chunks)
    × All (λ (s : Sending). length s.0 ≤ bundle_size) sends
    × (map (λ (s : Sending). s.1) sends ≡ take (length sends) (channel 1 ∷ []))
send_chunks_lem_example = send_chunks_lem three_chunks (channel 1 ∷ []) (omega arith)

-- Without a channel the program stops.
no_channel : send_chunks three_chunks [] ≡ none
unfolding send_chunks send_loop
no_channel = refl

abbrev outer : List ChunkData
outer = chunk (pos 3) ∷ chunk (pos 5) ∷ []

between : insert_treasure_chunks outer (chunk (pos 4) ∷ []) alpha_session ≡ three_chunks
unfolding insert_treasure_chunks insert_between collect ◌-ℤ◌ ◌+ℤ◌ wrap64
between = refl

insert_treasure_chunks-Any_example :
    Any (λ x. x ≡ chunk (pos 4)) (insert_treasure_chunks outer (chunk (pos 4) ∷ []) alpha_session)
insert_treasure_chunks-Any_example =
    insert_treasure_chunks-Any outer (chunk (pos 4) ∷ []) alpha_session (pos 4) (chunk (pos 4))
      ((omega arith, omega arith), ((omega arith, omega arith), tt))
      ((omega arith, omega arith), tt) (inl refl)

filter_and_assign_chunks_to_channels-Legal_example :
    GivesLegal
      (pos 10)
      (filter_and_assign_chunks_to_channels log setting (channel 1 ∷ []) outer outcome)
filter_and_assign_chunks_to_channels-Legal_example =
    filter_and_assign_chunks_to_channels-Legal log setting (channel 1 ∷ []) (pos 10) outer outcome
      (omega arith) (verify_chunk_messages_match_record-Filters silent_api)
      ((omega arith, omega arith), ((omega arith, omega arith), tt)) outcome-Legal
