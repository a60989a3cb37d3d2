-- ===== src/Attach/Run/Sizes.antt =====
-- jobs/process_unassigned_chunks.go: the chunks of a batch stay chunks of the file, and stay few.
pub mod Inserted
use brokernode.Attach.Handled.Parts.{parts}
use brokernode.Attach.Handled.{
  Handled, Tangle, asked, handled, handle_loop, handle_places, handle_treasure_chunks,
  treasures_between, handle_one, on_treasure, or_all,
}
use brokernode.Attach.{
  last_of, ranges, skip_verification_of_first_chunks, skipped, split, verified_range, length,
}
use brokernode.Prelude.{
  Bool, List, Option, [], arith, false, if◌then◌else◌, none, some, suc, true, ℕ, ◌&&◌, ◌++◌, ◌+◌,
  ◌∷◌, ◌≤◌, All-append, length-append,
}
use brokernode.Prelude.Int.{ℤ, eqb_ℤ, max_ℤ, min_ℤ}
use brokernode.Utils.Keys.{ChunkData}
use brokernode.Models.Session.{UploadSession}
use brokernode.Models.Session.Progress.{member}
use brokernode.Models.Session.Progress.Coverage.{ChunksInFile}
use brokernode.Models.Session.Stores.{Stores, Works}

-- At most k chunks, all of the file.
abbrev pub Fits : ℤ → ℕ → List ChunkData → Type 0
Fits n k cs = ChunksInFile n cs × (length cs ≤ k)

pub Fits-append :
    (n : ℤ) (j k : ℕ) (cs ds : List ChunkData)
    → Fits n j cs
    → Fits n k ds
    → Fits n (j + k) (cs ++ ds)
Fits-append n j k cs ds h e =
    (All-append _ cs ds h.0 e.0, omega (arith, length-append cs ds, h.1, e.1))

pub if-Fits :
    (n : ℤ) (k : ℕ) (b : Bool) (x y : List ChunkData × List ChunkData)
    → Fits n k x.0 × Fits n k x.1
    → Fits n k y.0 × Fits n k y.1
    → let z = if b then x else y in Fits n k z.0 × Fits n k z.1
if-Fits n k true x y hx hy = hx
if-Fits n k false x y hx hy = hy

pub split-Fits :
    (n : ℤ) (p : ChunkData → Bool) (cs : List ChunkData)
    → ChunksInFile n cs
    → let parts = split p cs in Fits n (length cs) parts.0 × Fits n (length cs) parts.1
split-Fits n p [] h = ((tt, omega arith), (tt, omega arith))
split-Fits n p (c ∷ cs) h =
    let (ins, outs) = split-Fits n p cs h.1 in
    if-Fits n (suc (length cs)) (p c) _ _
      (((h.0, ins.0), omega (arith, ins.1)), (outs.0, omega (arith, outs.1)))
      ((ins.0, omega (arith, ins.1)), ((h.0, outs.0), omega (arith, outs.1)))

-- Neither of the two parts is larger than the batch.
pub skip-Fits :
    (n : ℤ) (k : ℕ) (cs : List ChunkData) (u : UploadSession)
    → Fits n k cs
    → let parts = skip_verification_of_first_chunks cs u in Fits n k parts.0 × Fits n k parts.1
unfolding skip_verification_of_first_chunks
skip-Fits n k [] u h = ((tt, omega arith), (tt, omega arith))
skip-Fits n k (c ∷ cs) u h =
    let r = ranges u in
    let whole : Fits n k [] × Fits n k (c ∷ cs) = ((tt, omega arith), h) in
    let (ins, outs) = split-Fits n (skipped r) (c ∷ cs) h.0 in
    if-Fits n k (eqb_ℤ r.skip_verify_min_idx r.skip_verify_max_idx) ([], c ∷ cs) _ whole
      (if-Fits n k
        (verified_range r (min_ℤ c.idx (last_of c cs).idx)
          && verified_range r (max_ℤ c.idx (last_of c cs).idx))
        ([], c ∷ cs) (split (skipped r) (c ∷ cs)) whole
        ((ins.0, omega (arith, ins.1, h.1)), (outs.0, omega (arith, outs.1, h.1))))

module _ (tg : Tangle) (w : Works) (u : UploadSession) (n : ℤ) (k : ℕ) where
  -- What the loop over the treasures has collected, with the chunks that are left.
  abbrev Loop : List ChunkData → Handled → Type 0
  Loop cs h =
      ChunksInFile n h.to_attach
      × ChunksInFile n h.treasures_to_attach
      × ChunksInFile n cs
      × (length h.to_attach + length cs ≤ k)
      × (length h.treasures_to_attach + length cs ≤ k)

  abbrev LoopOr : List ChunkData → Option Handled → Type 0
  LoopOr cs none = Unit
  LoopOr cs (some h) = Loop cs h

  abbrev pub BothFit : Handled → Type 0
  BothFit h = Fits n k h.to_attach × Fits n k h.treasures_to_attach

  on_treasure-Loop :
      (o : Option Bool) (c : ChunkData) (cs : List ChunkData) (h : Handled)
      → Loop (c ∷ cs) h
      → LoopOr cs (on_treasure tg w u o c h)
  on_treasure-Loop none c cs h l = tt
  on_treasure-Loop (some true) c cs h l = (l.0, l.1, l.2.1, omega (arith, l.3), omega (arith, l.4))
  on_treasure-Loop (some false) c cs h l = (
    l.0,
    All-append _ h.treasures_to_attach (c ∷ []) l.1 (l.2.0, tt),
    l.2.1,
    omega (arith, l.3),
    omega (arith, l.4, length-append h.treasures_to_attach (c ∷ [])),
  )

  if-Loop :
      (b : Bool) (cs : List ChunkData) (x y : Option Handled)
      → LoopOr cs x
      → LoopOr cs y
      → LoopOr cs (if b then x else y)
  if-Loop true cs x y hx hy = hx
  if-Loop false cs x y hx hy = hy

  handle_one-Loop :
      (is_treasure : ℤ → Bool) (c : ChunkData) (cs : List ChunkData) (h : Handled)
      → Loop (c ∷ cs) h
      → LoopOr cs (handle_one tg w u is_treasure c h)
  handle_one-Loop is_treasure c cs h l =
      if-Loop (is_treasure c.idx) cs _ _ (on_treasure-Loop (asked tg c) c cs h l) (
        All-append _ h.to_attach (c ∷ []) l.0 (l.2.0, tt),
        l.1,
        l.2.1,
        omega (arith, l.3, length-append h.to_attach (c ∷ [])),
        omega (arith, l.4),
      )

  or_all-Fits :
      (all cs : List ChunkData) (h : Handled) (o : Option Handled) (next : Handled → Handled)
      → Fits n k all
      → ((h' : Handled) → Loop cs h' → BothFit (next h'))
      → LoopOr cs o
      → BothFit (or_all tg w u all h o next)
  or_all-Fits all cs h none next f g l = (f, (tt, omega arith))
  or_all-Fits all cs h (some h') next f g l = g h' l

  handle_loop-Fits :
      (is_treasure : ℤ → Bool) (all cs : List ChunkData) (h : Handled)
      → Fits n k all
      → Loop cs h
      → BothFit (handle_loop tg w u is_treasure all cs h)
  unfolding handle_loop
  handle_loop-Fits is_treasure all [] h f l = ((l.0, omega (arith, l.3)), (l.1, omega (arith, l.4)))
  handle_loop-Fits is_treasure all (c ∷ cs) h f l =
      or_all-Fits all cs h (handle_one tg w u is_treasure c h) _ f
        (λ h' l'. handle_loop-Fits is_treasure all cs h' f l')
        (handle_one-Loop is_treasure c cs h l)

  places-Fits :
      (places : List ℤ) (cs : List ChunkData) (st : Stores)
      → Fits n k cs
      → BothFit (handle_places tg w u places cs st)
  places-Fits [] cs st f = (f, (tt, omega arith))
  places-Fits (t ∷ ts) cs st f =
      handle_loop-Fits (member (t ∷ ts)) cs cs (handled [] [] st) f
        (tt, tt, f.0, omega (arith, f.1), omega (arith, f.1))

  -- Neither the chunks nor the treasures to attach are more than the batch.
  pub handle-Fits :
      (cs : List ChunkData) (st : Stores)
      → Fits n k cs
      → BothFit (handle_treasure_chunks tg w u cs st)
  unfolding handle_treasure_chunks
  handle-Fits [] st f = (f, f)
  handle-Fits (c ∷ cs) st f = places-Fits (treasures_between tg w u c cs) (c ∷ cs) st f
