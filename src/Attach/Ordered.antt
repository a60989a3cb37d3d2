-- ===== src/Attach/Ordered.antt =====
-- jobs/process_unassigned_chunks.go: the chunks that come back between the treasures.
pub mod Insert
use brokernode.Attach.{collect, in_front_of, length}
use brokernode.Prelude.{
  ◌^◌, All-map, Bool, List, Option, [], arith, false, inl, inr, none, refl, some, suc, true, zero,
  ℕ, ◌+◌, ◌<◌, ◌∷◌, ◌≡◌, ◌≤◌, ◌⊎◌, All, sym, ◌∙◌, ◌*◌,
}
use brokernode.Prelude.Table.{Any, here, there}
use brokernode.Prelude.Int.{
  ℤ, pos, negsuc, pos_part, neg_part, ◌+ℤ◌, ◌≤ℤ◌, int_laws, eqb_ℤ_iff, eqb_ℤ, parts_exclusive,
}
use brokernode.Prelude.Word.{add64_small, add64}
use brokernode.Utils.Keys.{ChunkData}
use brokernode.Models.Session.Progress.Scan.{walk, step_for, walk-zero, walk-suc, walk-ne}

-- From i the index j is not behind, upwards or downwards.
abbrev pub Ahead : Bool → ℤ → ℤ → Type 0
Ahead true i j = j ≤ℤ i
Ahead false i j = i ≤ℤ j

abbrev pub AllAhead : Bool → ℤ → List ChunkData → Type 0
AllAhead down i cs = All (λ (c : ChunkData). Ahead down i c.idx) cs

-- No chunk stands behind one with a later index.
abbrev pub Sorted : Bool → List ChunkData → Type 0
Sorted down [] = Unit
Sorted down (c ∷ cs) = AllAhead down c.idx cs × Sorted down cs

Ahead-refl : (down : Bool) (i : ℤ) → Ahead down i i
Ahead-refl true i = omega arith
Ahead-refl false i = omega arith

-- A map has chunks under their own indexes only.
abbrev pub Indexed : (ℤ → Option ChunkData) → Type 0
Indexed m = (i : ℤ) (c : ChunkData) → m i ≡ some c → c.idx ≡ i

front-Sorted :
    (down : Bool) (i : ℤ) (o : Option ChunkData) (cs : List ChunkData)
    → ((c : ChunkData) → o ≡ some c → c.idx ≡ i)
    → AllAhead down i cs × Sorted down cs
    → AllAhead down i (in_front_of o cs) × Sorted down (in_front_of o cs)
front-Sorted down i none cs at h = h
front-Sorted down i (some c) cs at h =
    ((rw (at c refl) (Ahead-refl down i), h.0), (rw (at c refl) (h.0), h.1))

length-in_front_of :
    (o : Option ChunkData) (cs : List ChunkData) → length (in_front_of o cs) ≤ length cs + 1
length-in_front_of none cs = omega arith
length-in_front_of (some c) cs = omega arith

front-here :
    (o : Option ChunkData) (c : ChunkData) (cs : List ChunkData)
    → o ≡ some c
    → Any (λ x. x ≡ c) (in_front_of o cs)
front-here o c cs h = rw (h, in_front_of) (here refl)

front-there :
    (o : Option ChunkData) (c : ChunkData) (cs : List ChunkData)
    → Any (λ x. x ≡ c) cs
    → Any (λ x. x ≡ c) (in_front_of o cs)
front-there none c cs h = h
front-there (some d) c cs h = there h

further :
    (down : Bool) (i : ℤ) (cs : List ChunkData)
    → AllAhead down (i +ℤ step_for down) cs
    → AllAhead down i cs
further true i cs h = All-map _ _ cs (λ (c : ChunkData) k. omega int_laws) h
further false i cs h = All-map _ _ cs (λ (c : ChunkData) k. omega int_laws) h

-- What the loop collects over n indexes from i on.
pub record Collected (down : Bool) (treasures others : ℤ → Option ChunkData) (i : ℤ) (n : ℕ)
    (cs : List ChunkData) : Type 0 where
  pub sorted : AllAhead down i cs × Sorted down cs
  pub size : length cs ≤ 2 * n
  pub holds :
      (j : ℕ) (c : ChunkData)
      → j < n
      → (treasures (walk down i j) ≡ some c) ⊎ (others (walk down i j) ≡ some c)
      → Any (λ x. x ≡ c) cs

holds_more :
    (down : Bool) (treasures others : ℤ → Option ChunkData) (i : ℤ) (n : ℕ) (cs : List ChunkData)
    → Collected down treasures others (i +ℤ step_for down) n cs
    → (j : ℕ) (c : ChunkData) → j < suc n
    → (treasures (walk down i j) ≡ some c) ⊎ (others (walk down i j) ≡ some c)
    → Any (λ x. x ≡ c) (in_front_of (treasures i) (in_front_of (others i) cs))
holds_more down treasures others i n cs r zero c h (inl e) =
    front-here (treasures i) c _ (rw (walk-zero down i) at e)
holds_more down treasures others i n cs r zero c h (inr e) =
    front-there (treasures i) c _ (front-here (others i) c cs (rw (walk-zero down i) at e))
holds_more down treasures others i n cs r (suc j) c h e =
    front-there (treasures i) c _
      (front-there (others i) c cs (r.holds j c (omega arith) (rw (walk-suc down i j) e)))

next_lem :
    (down : Bool) (i : ℤ)
    → pos_part i + neg_part i ≤ 2 ^ 61
    → add64 i (step_for down) ≡ i +ℤ step_for down
next_lem true i h = add64_small i (negsuc 0) (omega arith) (omega arith)
next_lem false i h = add64_small i (pos 1) (omega arith) (omega arith)

next_small :
    (down : Bool) (i : ℤ) (n : ℕ)
    → pos_part i + neg_part i + suc n ≤ 2 ^ 61
    → pos_part (i +ℤ step_for down) + neg_part (i +ℤ step_for down) + n ≤ 2 ^ 61
next_small true i n h = omega (int_laws, parts_exclusive (i +ℤ negsuc 0))
next_small false i n h = omega (int_laws, parts_exclusive (i +ℤ pos 1))

collect-Collected :
    (down : Bool) (treasures others : ℤ → Option ChunkData) (fuel n : ℕ) (i stop : ℤ)
    → Indexed treasures
    → Indexed others
    → n < fuel
    → pos_part i + neg_part i + n ≤ 2 ^ 61
    → stop ≡ walk down i n
    → Collected down treasures others i n (collect fuel treasures others i stop (step_for down))
unfolding collect
collect-Collected down treasures others zero n i stop ti oi f small e = absurd (omega arith)
collect-Collected down treasures others (suc fuel) zero i stop ti oi f small e =
    let same : eqb_ℤ i stop ≡ true = (eqb_ℤ_iff i stop).1 (sym (e ∙ walk-zero down i)) in
    rw (same, collect)
      (record { sorted = (tt, tt); size = omega arith; holds = λ j c h. absurd (omega (arith, h)) })
collect-Collected down treasures others (suc fuel) (suc n) i stop ti oi f small e =
    let other : eqb_ℤ i stop ≡ false = walk-ne down i stop n e in
    let rest =
      collect-Collected down treasures others fuel n (i +ℤ step_for down) stop ti oi (omega arith)
        (next_small down i n small) (e ∙ sym (walk-suc down i n)) in
    let behind = further down i _ rest.sorted.0 in
    rw (other, collect, next_lem down i (omega arith))
      (record {
        sorted =
            front-Sorted down i (treasures i) _ (λ c. ti i c)
              (front-Sorted down i (others i) _ (λ c. oi i c) (behind, rest.sorted.1));
        size = omega (
          arith,
          length-in_front_of (treasures i) (
              in_front_of (others i)
                (collect fuel treasures others (i +ℤ step_for down) stop (step_for down))),
          length-in_front_of (others i)
              (collect fuel treasures others (i +ℤ step_for down) stop (step_for down)),
          rest.size,
        );
        holds = holds_more down treasures others i n _ rest;
      })
