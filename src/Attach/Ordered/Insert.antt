-- ===== src/Attach/Ordered/Insert.antt =====
-- jobs/process_unassigned_chunks.go: InsertTreasureChunks keeps the order of the session and every chunk.
use brokernode.Attach.Ordered.{Collected, Indexed, collect-Collected, Sorted}
use brokernode.Attach.{
  mapped, max_idx_of, min_idx_of, or_this, insert_between, collect, insert_treasure_chunks,
}
use brokernode.Prelude.{
  ◌^◌, List, [], ap, arith, inl, inr, refl, some, ◌∙◌, ◌∷◌, ◌≡◌, All, Bool-cases, Option, none,
  false, if◌then◌else◌, true, ℕ, ◌+◌, ◌-◌, ◌<◌, Bool, ◌⊎◌,
}
use brokernode.Prelude.Table.{Any, here, there}
use brokernode.Prelude.Int.{
  ℤ, pos, negsuc, pos_part, ◌-ℤ◌, ◌≤ℤ◌, ◌<ℤ◌, int_laws, eqb_ℤ_iff, max_ℤ, min_ℤ, eqb_ℤ, eq_of_parts,
  parts_exclusive,
}
use brokernode.Prelude.Word.{add64_small, add64}
use brokernode.Utils.Keys.{ChunkData}
use brokernode.Models.Session.{UploadSession, session_type_beta}
use brokernode.Models.Session.Progress.Scan.{walk}

-- An index of a file.
abbrev pub IsIndex : ChunkData → Type 0
IsIndex c = (pos 0 ≤ℤ c.idx) × (c.idx <ℤ pos (2 ^ 60))

-- What a map has under an index is a chunk of the list, with that index.
or_this-Any :
    (o : Option ChunkData) (d : ChunkData) (cs : List ChunkData) (i : ℤ) (c : ChunkData)
    → (o ≡ some c → Any (λ x. x ≡ c) cs × (c.idx ≡ i))
    → or_this o d i ≡ some c
    → Any (λ x. x ≡ c) (d ∷ cs) × (c.idx ≡ i)
or_this-Any (some e) d cs i c back h = let (found, its) = back h in (there found, its)
or_this-Any none d cs i c back h = elim (Bool-cases (eqb_ℤ d.idx i)) [
  | inl same ↦
      let taken : some d ≡ some c = rw (same, or_this) at h in
      let its : d ≡ c = cc in (here its, rw (← its) ((eqb_ℤ_iff d.idx i).0 same))
  | inr other ↦
      let refused : (if false then some d else none) ≡ some c = rw (other, or_this) at h in cc
]

pub mapped-Any :
    (cs : List ChunkData) (i : ℤ) (c : ChunkData)
    → mapped cs i ≡ some c
    → Any (λ x. x ≡ c) cs × (c.idx ≡ i)
mapped-Any [] i c h = cc
mapped-Any (d ∷ cs) i c h = or_this-Any (mapped cs i) d cs i c (λ e. mapped-Any cs i c e) h

max_idx_of_lem :
    (m : ℤ) (cs : List ChunkData)
    → pos 0 ≤ℤ m
    → m <ℤ pos (2 ^ 60)
    → All IsIndex cs
    → (m ≤ℤ max_idx_of m cs)
      × (max_idx_of m cs <ℤ pos (2 ^ 60))
      × All (λ (c : ChunkData). c.idx ≤ℤ max_idx_of m cs) cs
max_idx_of_lem m [] l u h = (omega arith, u, tt)
max_idx_of_lem m (c ∷ cs) l u h =
    let (up, top, all) =
      max_idx_of_lem (max_ℤ m c.idx) cs (ground (arith, l)) (ground (arith, h.0)) h.1 in
    (ground (arith, up), top, (ground (arith, up), all))

min_idx_of_lem : (cs : List ChunkData) → All IsIndex cs → min_idx_of (pos 0) cs ≡ pos 0
min_idx_of_lem [] h = refl
min_idx_of_lem (c ∷ cs) h =
    ap (λ m. min_idx_of m cs) (zero_least c.idx h.0.0) ∙ min_idx_of_lem cs h.1
  where
    zero_least : (i : ℤ) → pos 0 ≤ℤ i → min_ℤ (pos 0) i ≡ pos 0
    zero_least i h = ground arith

-- Where an index stands on the way from one end to the other.
place_of :
    (high i : ℤ)
    → pos 0 ≤ℤ i
    → i ≤ℤ high
    → ((j : ℕ) × (j < pos_part high + 1) × (walk false (pos 0) j ≡ i))
      × ((j : ℕ) × (j < pos_part high + 1) × (walk true high j ≡ i))
place_of high i l h = (
  (
    pos_part i,
    omega (arith, parts_exclusive i),
    eq_of_parts _ _ (omega (int_laws, parts_exclusive i)),
  ),
  (
    pos_part high - pos_part i,
    omega (arith, parts_exclusive i, parts_exclusive high),
    eq_of_parts _ _ (omega (int_laws, parts_exclusive i, parts_exclusive high)),
  ),
)

-- Whichever way it goes, the loop goes over all indexes from zero to the greatest.
module _ (treasures others : ℤ → Option ChunkData) (high : ℤ) (ti : Indexed treasures)
    (oi : Indexed others) (l : pos 0 ≤ℤ high) (h : high <ℤ pos (2 ^ 60)) where
  downwards : Collected true treasures others high (pos_part high + 1) (
      collect
        (pos_part (high -ℤ pos 0) + 2)
        treasures
        others
        high
        (add64 (pos 0) (negsuc 0))
        (negsuc 0))
  downwards =
      collect-Collected true treasures others _ (pos_part high + 1) high _ ti oi
        (omega (int_laws, parts_exclusive high, parts_exclusive (high -ℤ pos 0)))
        (omega (arith, parts_exclusive high))
        (add64_small (pos 0) (negsuc 0) (omega arith) (omega arith)
          ∙ eq_of_parts _ _ (omega (int_laws, parts_exclusive high)))

  upwards :
      Collected false treasures others (pos 0) (pos_part high + 1) (
        collect
          (pos_part (high -ℤ pos 0) + 2)
          treasures
          others
          (pos 0)
          (add64 high (pos 1))
          (pos 1))
  upwards =
      collect-Collected false treasures others _ (pos_part high + 1) (pos 0) _ ti oi
        (omega (int_laws, parts_exclusive high, parts_exclusive (high -ℤ pos 0)))
        (omega (arith, parts_exclusive high))
        (add64_small high (pos 1) (omega (arith, parts_exclusive high)) (omega arith)
          ∙ eq_of_parts _ _ (omega (int_laws, parts_exclusive high)))

abbrev pub greatest : List ChunkData → List ChunkData → ℤ
greatest chunks treasures = max_idx_of (max_idx_of (pos 0) chunks) treasures

pub insert_between-Collected :
    (chunks treasures : List ChunkData) (u : UploadSession)
    → All IsIndex chunks
    → All IsIndex treasures
    → Collected
        (eqb_ℤ u.type session_type_beta)
        (mapped treasures)
        (mapped chunks)
        (if eqb_ℤ u.type session_type_beta then greatest chunks treasures else pos 0)
        (pos_part (greatest chunks treasures) + 1)
        (insert_between chunks treasures u)
unfolding insert_between
insert_between-Collected chunks treasures u hc ht =
    let low =
      ap (λ m. min_idx_of m treasures) (min_idx_of_lem chunks hc) ∙ min_idx_of_lem treasures ht in
    let (l, h, _) = max_idx_of_lem (pos 0) chunks (omega arith) (omega arith) hc in
    let (k, top, _) = max_idx_of_lem (max_idx_of (pos 0) chunks) treasures l h ht in
    let high = greatest chunks treasures in
    let ti : Indexed (mapped treasures) = λ i c e. (mapped-Any treasures i c e).1 in
    let oi : Indexed (mapped chunks) = λ i c e. (mapped-Any chunks i c e).1 in
    elim (Bool-cases (eqb_ℤ u.type session_type_beta)) [
      | inl beta ↦
          rw (beta, insert_between, low)
            (downwards (mapped treasures) (mapped chunks) high ti oi (omega (arith, l, k)) top)
      | inr alpha ↦
          rw (alpha, insert_between, low)
            (upwards (mapped treasures) (mapped chunks) high ti oi (omega (arith, l, k)) top)
    ]

-- Chunks and treasures that stand in the session's order, upwards or downwards, come back in it, for
-- indexes from 0 to 2^60.
pub insert_treasure_chunks-Sorted :
    (chunks treasures : List ChunkData) (u : UploadSession)
    → All IsIndex chunks
    → All IsIndex treasures
    → Sorted (eqb_ℤ u.type session_type_beta) chunks
    → Sorted (eqb_ℤ u.type session_type_beta) treasures
    → Sorted (eqb_ℤ u.type session_type_beta) (insert_treasure_chunks chunks treasures u)
unfolding insert_treasure_chunks
insert_treasure_chunks-Sorted chunks [] u hc ht sc st = sc
insert_treasure_chunks-Sorted [] (t ∷ ts) u hc ht sc st = st
insert_treasure_chunks-Sorted (c ∷ cs) (t ∷ ts) u hc ht sc st =
    (insert_between-Collected (c ∷ cs) (t ∷ ts) u hc ht).sorted.1

pub index_of_Any :
    (P : ChunkData → Type 0) (c : ChunkData) (cs : List ChunkData)
    → Any (λ x. x ≡ c) cs
    → All P cs
    → P c
index_of_Any P c (d ∷ cs) (here e) h = rw (← e) (h.0)
index_of_Any P c (d ∷ cs) (there k) h = index_of_Any P c cs k h.1
index_of_Any P c [] k h = elim k [ ]

-- What is mapped has an index that the loop reaches.
reached :
    (down : Bool) (treasures others : ℤ → Option ChunkData) (high i : ℤ) (c : ChunkData)
    (cs : List ChunkData)
    → Collected down treasures others (if down then high else pos 0) (pos_part high + 1) cs
    → (treasures i ≡ some c) ⊎ (others i ≡ some c)
    → pos 0 ≤ℤ i
    → i ≤ℤ high
    → Any (λ x. x ≡ c) cs
reached true treasures others high i c cs r e l h =
    let (j, near, at) = (place_of high i l h).1 in r.holds j c near (rw at e)
reached false treasures others high i c cs r e l h =
    let (j, near, at) = (place_of high i l h).0 in r.holds j c near (rw at e)

index_bounds :
    (chunks treasures : List ChunkData) (i : ℤ) (c : ChunkData)
    → All IsIndex chunks
    → All IsIndex treasures
    → (mapped treasures i ≡ some c) ⊎ (mapped chunks i ≡ some c)
    → (pos 0 ≤ℤ i) × (i ≤ℤ greatest chunks treasures)
index_bounds chunks treasures i c hc ht e =
    let (l, h, in_chunks) = max_idx_of_lem (pos 0) chunks (omega arith) (omega arith) hc in
    let (k, _, in_treasures) = max_idx_of_lem (max_idx_of (pos 0) chunks) treasures l h ht in
    elim e [
      | inl treasure ↦
          let (at, its) = mapped-Any treasures i c treasure in
          let low = index_of_Any IsIndex c treasures at ht in
          let high =
            index_of_Any (λ (x : ChunkData). x.idx ≤ℤ greatest chunks treasures) c treasures at
              in_treasures in
          rw (← its) (low.0, high)
      | inr chunk ↦
          let (at, its) = mapped-Any chunks i c chunk in
          let low = index_of_Any IsIndex c chunks at hc in
          let high =
            index_of_Any (λ (x : ChunkData). x.idx ≤ℤ max_idx_of (pos 0) chunks) c chunks at
              in_chunks in
          rw (← its) (low.0, omega (arith, high, k))
    ]

-- No chunk is lost: of each list, the last chunk with an index is in the result.
pub insert_treasure_chunks-Any :
    (chunks treasures : List ChunkData) (u : UploadSession) (i : ℤ) (c : ChunkData)
    → All IsIndex chunks
    → All IsIndex treasures
    → (mapped treasures i ≡ some c) ⊎ (mapped chunks i ≡ some c)
    → Any (λ x. x ≡ c) (insert_treasure_chunks chunks treasures u)
unfolding insert_treasure_chunks
insert_treasure_chunks-Any chunks [] u i c hc ht (inl e) = cc
insert_treasure_chunks-Any chunks [] u i c hc ht (inr e) = (mapped-Any chunks i c e).0
insert_treasure_chunks-Any [] (t ∷ ts) u i c hc ht (inl e) = (mapped-Any (t ∷ ts) i c e).0
insert_treasure_chunks-Any [] (t ∷ ts) u i c hc ht (inr e) = cc
insert_treasure_chunks-Any (d ∷ ds) (t ∷ ts) u i c hc ht e =
    let (l, h) = index_bounds (d ∷ ds) (t ∷ ts) i c hc ht e in
    reached _ (mapped (t ∷ ts)) (mapped (d ∷ ds)) (greatest (d ∷ ds) (t ∷ ts)) i c _
      (insert_between-Collected (d ∷ ds) (t ∷ ts) u hc ht) e l h
