-- ===== src/Attach/Run/Sizes/Inserted.antt =====
-- jobs/process_unassigned_chunks.go: the treasures' insertion makes no chunks and not too many.
use brokernode.Prelude.Word.{add64}
use brokernode.Attach.Run.Sizes.{Fits}
use brokernode.Attach.Ordered.Insert.{
  IsIndex, greatest, index_of_Any, insert_between-Collected, mapped-Any,
}
use brokernode.Attach.{
  collect, in_front_of, insert_between, insert_treasure_chunks, mapped, max_idx_of, min_idx_of,
}
use brokernode.Prelude.{
  ◌^◌, All-map, Bool, List, Option, [], arith, false, if◌then◌else◌, none, refl, some, suc, true,
  zero, ℕ, ◌∷◌, ◌≡◌, ◌≤◌, All, Bool-cases, inl, inr, ◌+◌,
}
use brokernode.Prelude.Int.{
  ℤ, pos, negsuc, pos_part, ◌≤ℤ◌, ◌<ℤ◌, parts_exclusive, max_ℤ, eqb_ℤ, ◌-ℤ◌,
}
use brokernode.Utils.Keys.{ChunkData}
use brokernode.Models.Session.{UploadSession, session_type_beta}
use brokernode.Models.Session.Progress.Coverage.{ChunksInFile}

module _ (P : ChunkData → Type 0) where
  front-All :
      (o : Option ChunkData) (cs : List ChunkData)
      → ((c : ChunkData) → o ≡ some c → P c)
      → All P cs
      → All P (in_front_of o cs)
  front-All none cs f h = h
  front-All (some c) cs f h = (f c refl, h)

  -- All of a list satisfy P.
  record Every (cs : List ChunkData) : Type 0 where
    every : All P cs

  if-Every : (b : Bool) (x y : List ChunkData) → Every x → Every y → Every (if b then x else y)
  if-Every true x y hx hy = hx
  if-Every false x y hx hy = hy

  collect-Every :
      (fuel : ℕ) (treasures others : ℤ → Option ChunkData) (i stop step : ℤ)
      → ((i : ℤ) (c : ChunkData) → treasures i ≡ some c → P c)
      → ((i : ℤ) (c : ChunkData) → others i ≡ some c → P c)
      → Every (collect fuel treasures others i stop step)
  unfolding collect
  collect-Every zero treasures others i stop step t o = record { every = tt }
  collect-Every (suc fuel) treasures others i stop step t o =
      let rest = collect-Every fuel treasures others (add64 i step) stop step t o in
      if-Every (eqb_ℤ i stop) [] _ (record { every = tt })
        (record {
          every = front-All (treasures i) _ (t i) (front-All (others i) _ (o i) rest.every);
        })

  mapped-All :
      (cs : List ChunkData) → All P cs → (i : ℤ) (c : ChunkData) → mapped cs i ≡ some c → P c
  mapped-All cs h i c e = index_of_Any P c cs (mapped-Any cs i c e).0 h

  between-Every :
      (chunks treasures : List ChunkData) (u : UploadSession)
      → All P chunks
      → All P treasures
      → Every (insert_between chunks treasures u)
  unfolding insert_between
  between-Every chunks treasures u hc ht =
      let ti = mapped-All treasures ht in
      let oi = mapped-All chunks hc in
      let high = max_idx_of (max_idx_of (pos 0) chunks) treasures in
      let low = min_idx_of (min_idx_of (pos 0) chunks) treasures in
      let every = λ (i stop step : ℤ).
        collect-Every (pos_part (high -ℤ low) + 2) (mapped treasures) (mapped chunks) i stop step ti
          oi in
      elim (Bool-cases (eqb_ℤ u.type session_type_beta)) [
        | inl beta ↦ rw (beta, insert_between) (every high (add64 low (negsuc 0)) (negsuc 0))
        | inr alpha ↦ rw (alpha, insert_between) (every low (add64 high (pos 1)) (pos 1))
      ]

max_idx_of-below :
    (top m : ℤ) (cs : List ChunkData)
    → m <ℤ top
    → All (λ (c : ChunkData). c.idx <ℤ top) cs
    → max_idx_of m cs <ℤ top
max_idx_of-below top m [] h b = h
max_idx_of-below top m (c ∷ cs) h b =
    max_idx_of-below top (max_ℤ m c.idx) cs (ground (arith, b.0)) b.1

InFile-IsIndex :
    (n : ℤ) (cs : List ChunkData) → n ≤ℤ pos (2 ^ 59) → ChunksInFile n cs → All IsIndex cs
InFile-IsIndex n cs h c =
    All-map _ _ cs
      (λ (d : ChunkData) k. (k.0, omega (arith, parts_exclusive n, parts_exclusive d.idx))) c

-- For a file of at least one chunk and at most 2^59, what comes back are chunks of the file, and at most
-- 2^60 of them.
pub insert-Fits :
    (n : ℤ) (j k : ℕ) (chunks treasures : List ChunkData) (u : UploadSession)
    → pos 1 ≤ℤ n
    → n ≤ℤ pos (2 ^ 59)
    → j ≤ 2 ^ 60
    → k ≤ 2 ^ 60
    → Fits n j chunks
    → Fits n k treasures
    → Fits n (2 ^ 60) (insert_treasure_chunks chunks treasures u)
unfolding insert_treasure_chunks
insert-Fits n j k chunks [] u l h hj hk fc ft = (fc.0, omega (arith, fc.1))
insert-Fits n j k [] (t ∷ ts) u l h hj hk fc ft = (ft.0, omega (arith, ft.1))
insert-Fits n j k (c ∷ cs) (t ∷ ts) u l h hj hk fc ft =
    let r =
      insert_between-Collected (c ∷ cs) (t ∷ ts) u (InFile-IsIndex n (c ∷ cs) h fc.0)
        (InFile-IsIndex n (t ∷ ts) h ft.0) in
    let low =
      max_idx_of-below n (pos 0) (c ∷ cs) (omega arith)
        (All-map _ _ (c ∷ cs) (λ (d : ChunkData) k. k.1) fc.0) in
    let high =
      max_idx_of-below n (max_idx_of (pos 0) (c ∷ cs)) (t ∷ ts) low
        (All-map _ _ (t ∷ ts) (λ (d : ChunkData) k. k.1) ft.0) in
    (
      (between-Every _ (c ∷ cs) (t ∷ ts) u fc.0 ft.0).every,
      omega (arith, r.size, high, parts_exclusive n, parts_exclusive (greatest (c ∷ cs) (t ∷ ts))),
    )
