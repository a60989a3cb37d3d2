-- ===== src/Attach/Bundles.antt =====
-- jobs/process_unassigned_chunks.go: which chunks go to which channel.
use brokernode.Prelude.Slices.{slice_end, take-slice_end}
use brokernode.Prelude.{
  Bool-cases, List, Option, [], ap, arith, inl, inr, ltb, ltb→lt, refl, some, sym, ℕ, ◌&&◌, ◌+◌,
  ◌<◌, ◌∙◌, ◌∷◌, ◌≡◌, take_all, leb, suc, zero, drop_all, drop_at, drop-drop, map, ◌*◌, ◌++◌, ◌≤◌,
  All, take-add, length-take,
}
use brokernode.Attach.{
  ChunkChannel, Sending, bundle_size, go_on, length, take, drop, send_loop, send_chunks,
}
use brokernode.Utils.Keys.{ChunkData}

-- The bundles by themselves: each channel gets the next hundred chunks, as long as there are any.
abbrev pub bundles : List ChunkData → List ChunkChannel → List Sending
bundles chunks [] = []
bundles [] (channel ∷ channels) = []
bundles (c ∷ cs) (channel ∷ channels) =
    (take bundle_size (c ∷ cs), channel) ∷ bundles (drop bundle_size (c ∷ cs)) channels

bundles-nil : (channels : List ChunkChannel) → bundles [] channels ≡ []
bundles-nil [] = refl
bundles-nil (channel ∷ channels) = refl

bundles-more :
    (cs : List ChunkData) (channels : List ChunkChannel) (c : ChunkData) (ds : List ChunkData)
    (channel : ChunkChannel) (others : List ChunkChannel)
    → cs ≡ c ∷ ds
    → channels ≡ channel ∷ others
    → (take bundle_size cs, channel) ∷ bundles (drop bundle_size cs) others ≡ bundles cs channels
bundles-more cs channels c ds channel others e f = rw (e, f) refl

-- What the loop goes on with is what the channels left get of the chunks left.
go_on-bundles :
    (chunks : List ChunkData) (channels : List ChunkChannel) (i j : ℕ)
    (rest : Option (List Sending))
    → (i < length chunks
        → j < length channels
        → rest ≡ some (bundles (drop i chunks) (drop j channels)))
    → go_on (ltb i (length chunks) && ltb j (length channels)) rest
      ≡ some (bundles (drop i chunks) (drop j channels))
go_on-bundles chunks channels i j rest h = elim (Bool-cases (ltb i (length chunks))) [
  | inr done ↦
      rw (done, go_on)
        (ap some (
          sym (
            ap (λ cs. bundles cs (drop j channels)) (drop_all i chunks (ground arith))
            ∙ bundles-nil (drop j channels))))
  | inl more ↦ elim (Bool-cases (ltb j (length channels))) [
    | inl free ↦
        rw (more, free, go_on) (h (ltb→lt i (length chunks) more) (ltb→lt j (length channels) free))
    | inr used ↦
        rw (more, used, go_on)
          (ap (λ chs. some (bundles (drop i chunks) chs))
            (sym (drop_all j channels (ground arith))))
  ]
]

two_left :
    (chunks : List ChunkData) (channels : List ChunkChannel) (i j : ℕ) (s : Sending)
    → s ∷ bundles (drop bundle_size (drop i chunks)) (drop (suc j) channels)
      ≡ s ∷ bundles (drop (i + bundle_size) chunks) (drop (j + 1) channels)
two_left chunks channels i j s =
    rw (drop-drop bundle_size i chunks)
      (ap (λ k. s ∷ bundles (drop (i + bundle_size) chunks) (drop k channels)) (suc_one j))
  where
    suc_one : (j : ℕ) → suc j ≡ j + 1
    suc_one j = omega arith

send_loop-bundles :
    (fuel : ℕ) (chunks : List ChunkData) (channels : List ChunkChannel) (i j : ℕ)
    → j < length channels
    → length channels < fuel + j
    → send_loop fuel chunks channels i j ≡ some (bundles (drop i chunks) (drop j channels))
unfolding send_loop
send_loop-bundles zero chunks channels i j h f = absurd (omega arith)
send_loop-bundles (suc fuel) chunks channels i j h f =
    let (channel, at_j, here_on) = drop_at j channels h in
    elim (Bool-cases (leb (slice_end bundle_size (length chunks) i) i)) [
      | inl done ↦
          rw (done, send_loop)
            (ap some (
              sym (
                ap (λ cs. bundles cs (drop j channels)) (drop_all i chunks (ground (arith, done)))
                ∙ bundles-nil (drop j channels))))
      | inr more ↦
          let (c, _, at_i) = drop_at i chunks (ground (arith, more)) in
          let go = go_on-bundles chunks channels (i + bundle_size) (j + 1) _ (λ _ free.
            send_loop-bundles fuel chunks channels (i + bundle_size) (j + 1) free (omega arith)) in
          rw (more, send_loop, at_j, go, take-slice_end bundle_size chunks i)
            (ap some (
              sym (two_left chunks channels i j _)
              ∙ bundles-more (drop i chunks) (drop j channels) c _ channel _ at_i here_on))
    ]

-- The chunks that go out, in their order.
abbrev pub sent_chunks : List Sending → List ChunkData
sent_chunks [] = []
sent_chunks (s ∷ sends) = s.0 ++ sent_chunks sends

sent_chunks-bundles :
    (chunks : List ChunkData) (channels : List ChunkChannel)
    → sent_chunks (bundles chunks channels) ≡ take (length channels * bundle_size) chunks
sent_chunks-bundles chunks [] = refl
sent_chunks-bundles [] (channel ∷ channels) = sym (take_all _ [] (omega arith))
sent_chunks-bundles (c ∷ cs) (channel ∷ channels) =
    ap (λ r. take bundle_size (c ∷ cs) ++ r)
      (sent_chunks-bundles (drop bundle_size (c ∷ cs)) channels)
    ∙ take-add bundle_size (length channels * bundle_size) (c ∷ cs)
    ∙ ap (λ k. take k (c ∷ cs)) (one_more (length channels))
  where
    one_more : (n : ℕ) → bundle_size + n * bundle_size ≡ suc n * bundle_size
    one_more n = omega arith

bundles-small :
    (chunks : List ChunkData) (channels : List ChunkChannel)
    → All (λ (s : Sending). length s.0 ≤ bundle_size) (bundles chunks channels)
bundles-small chunks [] = tt
bundles-small [] (channel ∷ channels) = tt
bundles-small (c ∷ cs) (channel ∷ channels) = (
  omega (arith, length-take bundle_size (c ∷ cs)),
  bundles-small (drop bundle_size (c ∷ cs)) channels,
)

channels-bundles :
    (chunks : List ChunkData) (channels : List ChunkChannel)
    → map (λ (s : Sending). s.1) (bundles chunks channels)
      ≡ take (length (bundles chunks channels)) channels
channels-bundles chunks [] = refl
channels-bundles [] (channel ∷ channels) = refl
channels-bundles (c ∷ cs) (channel ∷ channels) =
    ap (λ r. channel ∷ r) (channels-bundles (drop bundle_size (c ∷ cs)) channels)

-- With at least one channel SendChunks gives what the direct division into bundles gives: it
-- does not panic, its rounds end, and the first channel gets the first hundred chunks, the next one
-- the next hundred.
pub send_chunks-bundles :
    (chunks : List ChunkData) (channels : List ChunkChannel)
    → 0 < length channels
    → send_chunks chunks channels ≡ some (bundles chunks channels)
unfolding send_chunks
send_chunks-bundles chunks channels h =
    send_loop-bundles (length channels + 1) chunks channels 0 0 h (omega arith)

-- SendChunks, with at least one channel, sends in their order all chunks that the channels have room for, a
-- hundred for each channel, in bundles of at most a hundred, and no two bundles to one place in
-- the list of channels.
pub send_chunks_lem :
    (chunks : List ChunkData) (channels : List ChunkChannel)
    → 0 < length channels
    → (sends : List Sending) × (send_chunks chunks channels ≡ some sends)
      × (sent_chunks sends ≡ take (length channels * bundle_size) chunks)
      × All (λ (s : Sending). length s.0 ≤ bundle_size) sends
      × (map (λ (s : Sending). s.1) sends ≡ take (length sends) channels)
send_chunks_lem chunks channels h = (
  bundles chunks channels,
  send_chunks-bundles chunks channels h,
  sent_chunks-bundles chunks channels,
  bundles-small chunks channels,
  channels-bundles chunks channels,
)
