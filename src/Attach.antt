-- ===== src/Attach.antt =====
-- jobs/process_unassigned_chunks.go: which chunks of a batch are verified first, how treasures come
-- back between them, and how the chunks go out to the channels.
pub mod Verified
pub mod Ordered
pub mod Bundles
pub mod Handled
pub mod Run
pub mod Samples
mod Tests
use brokernode.Prelude.{
  Bool, List, Option, [], drop, get_elem?, if◌then◌else◌, leb, length, ltb, none, some, suc, take,
  zero, ℕ, ◌&&◌, ◌*◌, ◌+◌, ◌-◌, ◌/◌, ◌∷◌,
}
use brokernode.Prelude.Int.{ℤ, pos, negsuc, pos_part, ◌-ℤ◌, ◌+ℤ◌, eqb_ℤ, ltb_ℤ, leb_ℤ, min_ℤ, max_ℤ}
use brokernode.Prelude.Word.{add64, wrap64}
use brokernode.Prelude.Bytes.{Bytes}
use brokernode.Utils.Keys.{ChunkData}
use brokernode.Models.Session.{UploadSession, session_type_alpha, session_type_beta}

-- ChunkChannel, less its times.
pub record ChunkChannel : Type 0 where
  pub channel_id : Bytes
  pub chunks_processed : ℕ

abbrev pub bundle_size : ℕ
bundle_size = 100

abbrev pub percent_of_chunks_to_skip_verification : ℕ
percent_of_chunks_to_skip_verification = 45

-- int(float64(n) * 45.0 / 100.0): n * 45 is exact for the chunks of a session, and the quotient's
-- rounding error is far below its distance of at least 1/20 from the next integer.
abbrev pub to_skip : ℤ → ℤ
to_skip (pos n) = pos (n * percent_of_chunks_to_skip_verification / 100)
to_skip (negsuc n) = pos 0 -ℤ pos (suc n * percent_of_chunks_to_skip_verification / 100)

-- The four bounds of SkipVerificationOfFirstChunks.
pub record Ranges : Type 0 where
  pub skip_verify_min_idx : ℤ
  pub skip_verify_max_idx : ℤ
  pub verify_min_idx : ℤ
  pub verify_max_idx : ℤ

abbrev pub alpha_ranges : ℤ → Ranges
alpha_ranges num_chunks = record {
  skip_verify_min_idx = pos 0;
  skip_verify_max_idx = to_skip num_chunks -ℤ pos 1;
  verify_min_idx = to_skip num_chunks;
  verify_max_idx = num_chunks -ℤ pos 1;
}

abbrev pub beta_ranges : ℤ → Ranges
beta_ranges num_chunks = record {
  skip_verify_min_idx = num_chunks -ℤ to_skip num_chunks;
  skip_verify_max_idx = num_chunks -ℤ pos 1;
  verify_min_idx = pos 0;
  verify_max_idx = (num_chunks -ℤ to_skip num_chunks) -ℤ pos 1;
}

unfoldable pub ranges : UploadSession → Ranges
ranges u =
    if eqb_ℤ u.type session_type_alpha then alpha_ranges u.num_chunks else beta_ranges u.num_chunks

abbrev pub in_range : ℤ → ℤ → ℤ → Bool
in_range low high i = leb_ℤ low i && leb_ℤ i high

-- The loop over the chunks: those that pass, and the others.
abbrev pub split : (ChunkData → Bool) → List ChunkData → List ChunkData × List ChunkData
split passes [] = ([], [])
split passes (c ∷ cs) =
    let (ins, outs) = split passes cs in if passes c then (c ∷ ins, outs) else (ins, c ∷ outs)

-- chunks[len(chunks)-1]
abbrev pub last_of : ChunkData → List ChunkData → ChunkData
last_of c [] = c
last_of c (d ∷ cs) = last_of d cs

abbrev pub skipped : Ranges → ChunkData → Bool
skipped r c = in_range r.skip_verify_min_idx r.skip_verify_max_idx c.idx

abbrev pub verified_range : Ranges → ℤ → Bool
verified_range r i = in_range r.verify_min_idx r.verify_max_idx i

-- The indexes of chunks are below 2^53, so float64's minimum and maximum are exact.
abbrev pub skip_with : Ranges → ChunkData → List ChunkData → List ChunkData × List ChunkData
skip_with r c cs =
    let last = last_of c cs in
    if eqb_ℤ r.skip_verify_min_idx r.skip_verify_max_idx
    then ([], c ∷ cs)
    else if verified_range r (min_ℤ c.idx last.idx) && verified_range r (max_ℤ c.idx last.idx)
    then ([], c ∷ cs)
    else split (skipped r) (c ∷ cs)

-- SkipVerificationOfFirstChunks: the chunks that are sent as they are, and those to verify.
unfoldable pub skip_verification_of_first_chunks :
    List ChunkData → UploadSession → List ChunkData × List ChunkData
unfolding ranges
skip_verification_of_first_chunks [] u = ([], [])
skip_verification_of_first_chunks (c ∷ cs) u = skip_with (ranges u) c cs

-- A Go map from indexes to chunks, filled by a loop: the last chunk with an index stays.
abbrev pub or_this : Option ChunkData → ChunkData → ℤ → Option ChunkData
or_this (some d) c i = some d
or_this none c i = if eqb_ℤ c.idx i then some c else none

abbrev pub mapped : List ChunkData → ℤ → Option ChunkData
mapped [] i = none
mapped (c ∷ cs) i = or_this (mapped cs i) c i

abbrev pub in_front_of : Option ChunkData → List ChunkData → List ChunkData
in_front_of none cs = cs
in_front_of (some c) cs = c ∷ cs

-- The loop that collects, on fuel.
unfoldable pub collect :
    ℕ → (ℤ → Option ChunkData) → (ℤ → Option ChunkData) → ℤ → ℤ → ℤ → List ChunkData
collect zero treasures others i stop step = []
collect (suc fuel) treasures others i stop step =
    let rest = collect fuel treasures others (add64 i step) stop step in
    if eqb_ℤ i stop then [] else in_front_of (treasures i) (in_front_of (others i) rest)

-- The bounds that the loops over both lists find. Both start at zero.
abbrev pub max_idx_of : ℤ → List ChunkData → ℤ
max_idx_of m [] = m
max_idx_of m (c ∷ cs) = max_idx_of (max_ℤ m c.idx) cs

abbrev pub min_idx_of : ℤ → List ChunkData → ℤ
min_idx_of m [] = m
min_idx_of m (c ∷ cs) = min_idx_of (min_ℤ m c.idx) cs

-- The fuel is the number of indexes from the least to the greatest.
unfoldable pub insert_between : List ChunkData → List ChunkData → UploadSession → List ChunkData
unfolding collect
insert_between chunks treasures u =
    let high = max_idx_of (max_idx_of (pos 0) chunks) treasures in
    let low = min_idx_of (min_idx_of (pos 0) chunks) treasures in
    let rounds = pos_part (high -ℤ low) + 2 in
    if eqb_ℤ u.type session_type_beta
    then collect rounds (mapped treasures) (mapped chunks) high (add64 low (negsuc 0)) (negsuc 0)
    else collect rounds (mapped treasures) (mapped chunks) low (add64 high (pos 1)) (pos 1)

-- InsertTreasureChunks
unfoldable pub insert_treasure_chunks :
    List ChunkData → List ChunkData → UploadSession → List ChunkData
unfolding insert_between
insert_treasure_chunks chunks [] u = chunks
insert_treasure_chunks [] (t ∷ ts) u = t ∷ ts
insert_treasure_chunks (c ∷ cs) (t ∷ ts) u = insert_between (c ∷ cs) (t ∷ ts) u

-- SendChunksToChannel with a bundle and a channel.
abbrev pub Sending : Type 0
Sending = List ChunkData × ChunkChannel

abbrev pub send_to :
    Option ChunkChannel → List ChunkData → Option (List Sending) → Option (List Sending)
send_to none bundle rest = none
send_to (some channel) bundle none = none
send_to (some channel) bundle (some rest) = some ((bundle, channel) ∷ rest)

abbrev pub go_on : Bool → Option (List Sending) → Option (List Sending)
go_on ok rest = if ok then rest else some []

-- The loop of SendChunks, on fuel: `none` is the panic of a channel out of range.
unfoldable pub send_loop : ℕ → List ChunkData → List ChunkChannel → ℕ → ℕ → Option (List Sending)
send_loop zero chunks channels i j = some []
send_loop (suc fuel) chunks channels i j =
    let end = if ltb (length chunks) (i + bundle_size) then length chunks else i + bundle_size in
    let ok = ltb (i + bundle_size) (length chunks) && ltb (j + 1) (length channels) in
    let rest = send_loop fuel chunks channels (i + bundle_size) (j + 1) in
    if leb end i
    then some []
    else send_to (get_elem? channels j) (take (end - i) (drop i chunks)) (go_on ok rest)

-- SendChunks: every round but the first has a channel of its own.
unfoldable pub send_chunks : List ChunkData → List ChunkChannel → Option (List Sending)
unfolding send_loop
send_chunks chunks channels = send_loop (length channels + 1) chunks channels 0 0
