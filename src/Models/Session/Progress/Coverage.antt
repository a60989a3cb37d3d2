-- ===== src/Models/Session/Progress/Coverage.antt =====
-- models/upload_sessions.go: which indexes the scan of the updates passes, and how far it goes.
use brokernode.Prelude.{
  ℕ, ◌+◌, ◌≤◌, ◌^◌, ◌≡◌, inl, inr, Bool, true, false, List, [], ◌∷◌, length, arith, Bool-cases,
  if◌then◌else◌, All, ◌∙◌,
}
use brokernode.Prelude.Int.{
  ℤ, pos, negsuc, pos_part, neg_part, ◌-ℤ◌, ◌*ℤ◌, ◌≤ℤ◌, ◌<ℤ◌, eqb_ℤ, int_laws, parts_exclusive,
  eq_of_parts, eqb_ℤ_iff,
}
use brokernode.Prelude.Word.{add64, mul64, wrap64_id, add64_small}
use brokernode.Prelude.Bytes.{Bytes}
use brokernode.Utils.Keys.{ChunkData}
use brokernode.Models.Session.{UploadSession, session_type_beta, get_treasure_indexes}
use brokernode.Models.Session.Progress.{has_idx, member, covered, advance}
use brokernode.Models.Session.Progress.Scan.{walk, Reaches, scan-Reaches}

abbrev pub is_beta : UploadSession → Bool
is_beta u = eqb_ℤ u.type session_type_beta

times_step :
    (n : ℕ)
    → n ≤ 2 ^ 60
    → (mul64 (pos n) (pos 1) ≡ pos n) × (mul64 (pos n) (negsuc 0) ≡ pos 0 -ℤ pos n)
times_step n h =
    let up : pos n *ℤ pos 1 ≡ pos n = (unfold ◌*ℤ◌ in ground arith) in
    let down : pos n *ℤ negsuc 0 ≡ pos 0 -ℤ pos n = (unfold ◌*ℤ◌ ◌-ℤ◌ in ground arith) in
    (
      rw up (wrap64_id (pos n) (omega arith) (omega arith)),
      rw down (wrap64_id (pos 0 -ℤ pos n) (omega int_laws) (omega int_laws)),
    )

stop_lem :
    (down : Bool) (start : ℤ) (n : ℕ)
    → pos_part start + neg_part start ≤ 2 ^ 60
    → n ≤ 2 ^ 60
    → add64 start (mul64 (pos n) (if down then negsuc 0 else pos 1)) ≡ walk down start n
stop_lem true start n s h = rw ((times_step n h).1) (
    add64_small start (pos 0 -ℤ pos n) (omega arith)
      (omega (int_laws, parts_exclusive (pos 0 -ℤ pos n)))
    ∙ eq_of_parts _ _ (omega int_laws))
stop_lem false start n s h =
    rw ((times_step n h).0) (add64_small start (pos n) (omega arith) (omega arith))

-- From an index within 2^60 of zero, with at most 2^60 chunks, the scan of both updates passes the
-- longest gapless run of covered indexes that its rounds allow.
pub advance-Reaches :
    (completed_hash : ℤ → Bytes) (u : UploadSession) (chunks : List ChunkData) (start : ℤ)
    → pos_part start + neg_part start ≤ 2 ^ 60
    → length chunks ≤ 2 ^ 60
    → Reaches
        (is_beta u)
        (covered completed_hash (get_treasure_indexes u).0 chunks)
        start
        (length chunks)
        (advance completed_hash u chunks start)
unfolding advance
advance-Reaches completed_hash u chunks start s h = elim (Bool-cases (is_beta u)) [
  | inl b ↦ rw b (
      scan-Reaches true _ (length chunks + 1) _ start (length chunks) (omega arith) (omega arith)
        (stop_lem true start (length chunks) s h))
  | inr a ↦ rw a (
      scan-Reaches false _ (length chunks + 1) _ start (length chunks) (omega arith) (omega arith)
        (stop_lem false start (length chunks) s h))
]

-- The places of the file.
abbrev pub InFile : ℤ → ℤ → Type 0
InFile num_chunks i = (pos 0 ≤ℤ i) × (i <ℤ num_chunks)

abbrev pub ChunksInFile : ℤ → List ChunkData → Type 0
ChunksInFile num_chunks = All (λ (c : ChunkData). InFile num_chunks c.idx)

abbrev pub PlacesInFile : ℤ → List ℤ → Type 0
PlacesInFile num_chunks = All (InFile num_chunks)

has_idx-InFile :
    (n i : ℤ) (chunks : List ChunkData)
    → ChunksInFile n chunks
    → has_idx chunks i ≡ true
    → InFile n i
unfolding has_idx
has_idx-InFile n i [] h e = absurd (cc)
has_idx-InFile n i (c ∷ cs) h e = elim (Bool-cases (eqb_ℤ c.idx i)) [
  | inl same ↦ rw (← (eqb_ℤ_iff c.idx i).0 same) (h.0)
  | inr other ↦ has_idx-InFile n i cs h.1 (rw other at e)
]

member-InFile : (n i : ℤ) (ts : List ℤ) → PlacesInFile n ts → member ts i ≡ true → InFile n i
unfolding member
member-InFile n i [] h e = absurd (cc)
member-InFile n i (t ∷ ts) h e = elim (Bool-cases (eqb_ℤ t i)) [
  | inl same ↦ rw (← (eqb_ℤ_iff t i).0 same) (h.0)
  | inr other ↦ member-InFile n i ts h.1 (rw other at e)
]

pub covered-InFile :
    (completed_hash : ℤ → Bytes) (n i : ℤ) (treasures : List ℤ) (chunks : List ChunkData)
    → ChunksInFile n chunks
    → PlacesInFile n treasures
    → covered completed_hash treasures chunks i ≡ true
    → InFile n i
unfolding covered
covered-InFile completed_hash n i treasures chunks hc ht e = elim (Bool-cases (has_idx chunks i)) [
  | inl here ↦ has_idx-InFile n i chunks hc here
  | inr there ↦ member-InFile n i treasures ht (ground arith)
]
