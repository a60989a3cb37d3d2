-- ===== src/Models/MoveAll/Windows.antt =====
-- models/upload_sessions.go, moveAllChunksToCompletedBadger: the loop ends, and its windows cover the
-- chunks.
use brokernode.Store.{Badger}
use brokernode.Prelude.Table.{Any, here, there}
use brokernode.Prelude.Int.{pos}
use brokernode.Prelude.Bytes.{Bytes}
use brokernode.Models.MoveAll.{
  after_window, move_all_chunks_to_completed_badger, move_window, up_to, window_loop,
}
use brokernode.Models.DataMaps.{max_badger_insertions}
use brokernode.Prelude.{
  Bool, List, Option, [], arith, dec_lt, false, if◌then◌else◌, leb, refl, some, suc, true, zero, ℕ,
  ◌+◌, ◌<◌, ◌==◌, ◌∷◌, ◌≡◌, ◌≤◌,
}
use brokernode.Store.Registry.{Files, OpenStores}

up_to-step : (last i : ℕ) → i < last → i < up_to last (i + max_badger_insertions)
up_to-step last i h = ground arith

up_to-last : (last i : ℕ) → up_to last i ≤ last
up_to-last last i = ground arith

not_last : (i last : ℕ) → (i == last) ≡ false → i ≤ last → i < last
not_last i last h le = ground arith

-- The windows from one that starts at i on, with their first and last indexes.
abbrev pub windows : ℕ → ℕ → ℕ → List (ℕ × ℕ)
windows last zero i = []
windows last (suc fuel) i =
    let rest = windows last fuel (up_to last (i + max_badger_insertions)) in
    (i, up_to last (i + max_badger_insertions)) ∷ (if i == last then [] else rest)

-- Rounds for the windows, up to the first error.
abbrev pub on_round : {S : Type 0} → Bool × S → (S → Bool × S) → Bool × S
on_round (false, s) rest = (false, s)
on_round (true, s) rest = rest s

abbrev pub rounds : {S : Type 0} → (ℕ → ℕ → S → Bool × S) → List (ℕ × ℕ) → S → Bool × S
rounds body [] s = (true, s)
rounds body (w ∷ ws) s = on_round (body (w.0) (w.1) s) (rounds body ws)

module _ {S : Type 0} (body : ℕ → ℕ → S → Bool × S) (last : ℕ) where
  after_window_lem :
      (r : Bool × S) (at_end : Bool) (rest : S → Option (Bool × S)) (ws : List (ℕ × ℕ))
      → ((s : S) → at_end ≡ false → rest s ≡ some (rounds body ws s))
      → after_window r at_end rest ≡ some (on_round r (rounds body (if at_end then [] else ws)))
  after_window_lem (false, s) at_end rest ws f = refl
  after_window_lem (true, s) true rest ws f = refl
  after_window_lem (true, s) false rest ws f = f s refl

  window_loop-rounds :
      (fuel i : ℕ) (s : S)
      → i ≤ last
      → last < fuel + i
      → window_loop body last fuel i s ≡ some (rounds body (windows last fuel i) s)
  unfolding window_loop
  window_loop-rounds zero i s le enough = absurd (omega arith)
  window_loop-rounds (suc fuel) i s le enough =
      let inside : leb i last ≡ true = ground arith in
      rw (inside, window_loop)
        (after_window_lem (body i (up_to last (i + max_badger_insertions)) s) (i == last)
          (window_loop body last fuel (up_to last (i + max_badger_insertions)))
          (windows last fuel (up_to last (i + max_badger_insertions)))
          (λ s' go_on.
            let further = up_to-step last i (not_last i last go_on le) in
            window_loop-rounds fuel (up_to last (i + max_badger_insertions)) s'
              (up_to-last last (i + max_badger_insertions)) (omega (arith, further))))

-- The window that has an index.
abbrev pub HasIndex : ℕ → ℕ × ℕ → Type 0
HasIndex k w = (w.0 ≤ k) × (k ≤ w.1)

windows-HasIndex :
    (last fuel i k : ℕ)
    → i ≤ k
    → k ≤ last
    → last < fuel + i
    → Any (HasIndex k) (windows last fuel i)
windows-HasIndex last zero i k low high enough = absurd (omega arith)
windows-HasIndex last (suc fuel) i k low high enough =
    elim (dec_lt (up_to last (i + max_badger_insertions)) k) [
      | no inside ↦ here (low, omega arith)
      | yes behind ↦
          let further = first_further behind in
          let open_end : (i == last) ≡ false = ground arith in
          rw open_end (
            there (
              windows-HasIndex last fuel (up_to last (i + max_badger_insertions)) k (omega arith)
                high (omega arith)))
    ]
  where
    first_further :
        up_to last (i + max_badger_insertions) < k → i < up_to last (i + max_badger_insertions)
    first_further behind = ground arith

-- For a session with chunks 0 to last, moveAllChunksToCompletedBadger ends, and does what the rounds for
-- the listed windows do, one after the other up to the first error; every chunk is in one of the windows.
pub move_all_chunks_to_completed_badger-rounds :
    {World Db Txn : Type 0} (fs : Files World Db) (b : Badger World Db Txn) (genesis_hash : Bytes)
    (last k : ℕ) (s : OpenStores World Db)
    → k ≤ last
    → (move_all_chunks_to_completed_badger fs b genesis_hash (pos (suc last)) s
        ≡ some (rounds (move_window fs b genesis_hash) (windows last (suc last) 0) s))
      × Any (HasIndex k) (windows last (suc last) 0)
unfolding move_all_chunks_to_completed_badger
move_all_chunks_to_completed_badger-rounds fs b genesis_hash last k s h = (
  window_loop-rounds (move_window fs b genesis_hash) last (suc last) 0 s (omega arith)
      (omega arith),
  windows-HasIndex last (suc last) 0 k (omega arith) h (omega arith),
)
