-- ===== src/Models/Session/Progress/Scan.antt =====
-- models/upload_sessions.go: the scan of both index updates goes exactly as far as the chunks
-- that it was given reach without a gap.
use brokernode.Prelude.{
  ◌∙◌, sym, ℕ, zero, suc, ◌+◌, ◌≤◌, ◌<◌, ◌^◌, ◌≡◌, refl, ◌⊎◌, inl, inr, Bool, true, false, arith,
  ap, Bool-cases,
}
use brokernode.Prelude.Int.{
  ℤ, pos, negsuc, pos_part, neg_part, ◌+ℤ◌, ◌-ℤ◌, eqb_ℤ, int_laws, parts_exclusive, eq_of_parts,
  +ℤ_parts, -ℤ_parts,
}
use brokernode.Prelude.Word.{add64, add64_small}
use brokernode.Models.Session.Progress.{scan}

-- The k-th index from `start`, upwards or downwards.
abbrev pub walk : Bool → ℤ → ℕ → ℤ
walk true start k = start -ℤ pos k
walk false start k = start +ℤ pos k

-- `new` is `k` indexes on from `start`, all of which pass, and the scan stopped there because n
-- indexes were passed or the next one does not pass.
pub record Reaches (down : Bool) (passes : ℤ → Bool) (start : ℤ) (n : ℕ) (new : ℤ) : Type 0 where
  pub count : ℕ
  pub ends : new ≡ walk down start count
  pub within : count ≤ n
  pub passed : (j : ℕ) → j < count → passes (walk down start j) ≡ true
  pub maximal : (count ≡ n) ⊎ (passes (walk down start count) ≡ false)

abbrev pub step_for : Bool → ℤ
step_for true = negsuc 0
step_for false = pos 1

pub walk-zero : (down : Bool) (i : ℤ) → walk down i 0 ≡ i
walk-zero true i = eq_of_parts _ _ (omega int_laws)
walk-zero false i = eq_of_parts _ _ (omega int_laws)

pub walk-suc :
    (down : Bool) (i : ℤ) (k : ℕ) → walk down (i +ℤ step_for down) k ≡ walk down i (suc k)
walk-suc true i k = eq_of_parts _ _ (omega int_laws)
walk-suc false i k = eq_of_parts _ _ (omega int_laws)

pub walk-ne : (down : Bool) (i stop : ℤ) (n : ℕ) → stop ≡ walk down i (suc n) → eqb_ℤ i stop ≡ false
walk-ne true i stop n e = rw e (ground (arith, -ℤ_parts i (pos (suc n))))
walk-ne false i stop n e = rw e (ground (arith, +ℤ_parts i (pos (suc n))))

passed_more :
    (down : Bool) (passes : ℤ → Bool) (i : ℤ) (count : ℕ)
    → passes i ≡ true
    → ((j : ℕ) → j < count → passes (walk down (i +ℤ step_for down) j) ≡ true)
    → (j : ℕ) → j < suc count
    → passes (walk down i j) ≡ true
passed_more down passes i count h all zero lt = rw (walk-zero down i) h
passed_more down passes i count h all (suc j) lt = rw (← walk-suc down i j) (all j (omega arith))

one_more :
    (down : Bool) (passes : ℤ → Bool) (i : ℤ) (n : ℕ) {new : ℤ}
    → passes i ≡ true
    → Reaches down passes (i +ℤ step_for down) n new
    → Reaches down passes i (suc n) new
one_more down passes i n h r = record {
  count = suc r.count;
  ends = r.ends ∙ walk-suc down i r.count;
  within = omega (arith, r.within);
  passed = passed_more down passes i r.count h r.passed;
  maximal = elim r.maximal [
    | inl e ↦ inl (ap suc e)
    | inr f ↦ inr (rw (← walk-suc down i r.count) f)
  ];
}

here :
    (down : Bool) (passes : ℤ → Bool) (i : ℤ) (n : ℕ)
    → (0 ≡ n) ⊎ (passes i ≡ false)
    → Reaches down passes i n i
here down passes i n h = record {
  count = 0;
  ends = sym (walk-zero down i);
  within = omega arith;
  passed = λ j lt. elim lt [ ];
  maximal = elim h [ inl e ↦ inl e | inr f ↦ inr (rw (walk-zero down i) f) ];
}

walk_step :
    (down : Bool) (i : ℤ) (n : ℕ)
    → pos_part i + neg_part i + suc n ≤ 2 ^ 61
    → (add64 i (step_for down) ≡ i +ℤ step_for down)
      × (pos_part (i +ℤ step_for down) + neg_part (i +ℤ step_for down) + n ≤ 2 ^ 61)
walk_step true i n h = (
  add64_small i (negsuc 0) (omega arith) (omega arith),
  omega (int_laws, parts_exclusive (i +ℤ negsuc 0), parts_exclusive i),
)
walk_step false i n h = (
  add64_small i (pos 1) (omega arith) (omega arith),
  omega (int_laws, parts_exclusive (i +ℤ pos 1), parts_exclusive i),
)

-- The loop with enough fuel, from `i` to the index n steps on.
pub scan-Reaches :
    (down : Bool) (passes : ℤ → Bool) (fuel : ℕ) (stop i : ℤ) (n : ℕ)
    → n < fuel
    → pos_part i + neg_part i + n ≤ 2 ^ 61
    → stop ≡ walk down i n
    → Reaches down passes i n (scan fuel passes (step_for down) stop i i)
unfolding scan
scan-Reaches down passes zero stop i n f b e = elim f [ ]
scan-Reaches down passes (suc fuel) stop i zero f b e =
    let end : stop ≡ i = e ∙ walk-zero down i in
    let done : eqb_ℤ i stop ≡ true = rw end (ground arith) in
    rw done (here down passes i 0 (inl refl))
scan-Reaches down passes (suc fuel) stop i (suc n) f b e =
    let (next, small) = walk_step down i n b in
    rw (walk-ne down i stop n e) (elim (Bool-cases (passes i)) [
      | inl more ↦ rw more (
          rw next (
            one_more down passes i n more (
              scan-Reaches down passes fuel stop (i +ℤ step_for down) n (omega arith) small
                (e ∙ sym (walk-suc down i n)))))
      | inr less ↦ rw less (here down passes i (suc n) (inr less))
    ])
