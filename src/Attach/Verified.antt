-- ===== src/Attach/Verified.antt =====
-- jobs/process_unassigned_chunks.go: the chunks that are sent without being verified first.
use brokernode.Prelude.{
  All, Bool, Bool-cases, List, [], ap, arith, false, inl, inr, not, refl, true, ◌∷◌, ◌≡◌, ◌⊎◌,
  All-map, sym, if◌then◌else◌, ◌&&◌, ◌≢◌,
}
use brokernode.Attach.{
  Ranges, alpha_ranges, beta_ranges, ranges, split, in_range, last_of,
  skip_verification_of_first_chunks, skip_with, skipped, verified_range, to_skip,
}
use brokernode.Prelude.Table.{keep}
use brokernode.Prelude.Int.{ℤ, pos, negsuc, ◌-ℤ◌, ◌≤ℤ◌, ◌<ℤ◌, int_laws, eqb_ℤ, max_ℤ, min_ℤ}
use brokernode.Utils.Keys.{ChunkData}
use brokernode.Models.Session.{UploadSession, session_type_alpha, session_type_beta}

split-keep :
    (p : ChunkData → Bool) (cs : List ChunkData)
    → split p cs ≡ (keep p cs, keep (λ c. not (p c)) cs)
split-keep p [] = refl
split-keep p (c ∷ cs) = elim (Bool-cases (p c)) [
  | inl passes ↦ rw (passes, split, keep, split-keep p cs) refl
  | inr fails ↦ rw (fails, split, keep, split-keep p cs) refl
]

keep-none :
    (p : ChunkData → Bool) (cs : List ChunkData) → All (λ c. p c ≡ false) cs → keep p cs ≡ []
keep-none p [] h = refl
keep-none p (c ∷ cs) h = rw (h.0, keep) (keep-none p cs h.1)

keep-every :
    (p : ChunkData → Bool) (cs : List ChunkData)
    → All (λ c. p c ≡ false) cs
    → keep (λ c. not (p c)) cs ≡ cs
keep-every p [] h = refl
keep-every p (c ∷ cs) h = rw (h.0, keep) (ap (λ r. c ∷ r) (keep-every p cs h.1))

-- An index lies between two, in whichever order they are.
abbrev pub Between : ℤ → ℤ → ℤ → Type 0
Between a b i = (min_ℤ a b ≤ℤ i) × (i ≤ℤ max_ℤ a b)

within_between :
    (low high a b i : ℤ)
    → in_range low high (min_ℤ a b) ≡ true
    → in_range low high (max_ℤ a b) ≡ true
    → Between a b i
    → (low ≤ℤ i) × (i ≤ℤ high)
within_between low high a b i h k between = ground arith

-- What is in the range to verify is not in the one to skip.
Disjoint : Ranges → Type 0
Disjoint r =
    (i : ℤ)
    → r.verify_min_idx ≤ℤ i
    → i ≤ℤ r.verify_max_idx
    → in_range r.skip_verify_min_idx r.skip_verify_max_idx i ≡ false

not_within : (low high i : ℤ) → (i <ℤ low) ⊎ (high <ℤ i) → in_range low high i ≡ false
not_within low high i h = ground arith

alpha-Disjoint : (n : ℤ) → Disjoint (alpha_ranges n)
unfolding Disjoint
alpha-Disjoint n i low high =
    not_within (alpha_ranges n).skip_verify_min_idx (alpha_ranges n).skip_verify_max_idx i
      (inr (omega int_laws))

beta-Disjoint : (n : ℤ) → Disjoint (beta_ranges n)
unfolding Disjoint
beta-Disjoint n i low high =
    not_within (beta_ranges n).skip_verify_min_idx (beta_ranges n).skip_verify_max_idx i
      (inl (omega int_laws))

ranges-Disjoint : (u : UploadSession) → Disjoint (ranges u)
unfolding ranges
ranges-Disjoint u = elim (Bool-cases (eqb_ℤ u.type session_type_alpha)) [
  | inl alpha ↦ rw (alpha, ranges) (alpha-Disjoint u.num_chunks)
  | inr beta ↦ rw (beta, ranges) (beta-Disjoint u.num_chunks)
]

none_skipped :
    (r : Ranges) (a b : ℤ) (cs : List ChunkData)
    → Disjoint r
    → verified_range r (min_ℤ a b) ≡ true
    → verified_range r (max_ℤ a b) ≡ true
    → All (λ (d : ChunkData). Between a b d.idx) cs
    → All (λ d. skipped r d ≡ false) cs
unfolding Disjoint
none_skipped r a b cs apart low high between =
    All-map _ _ cs
      (λ (d : ChunkData) at_d.
        let (above, below) =
          within_between r.verify_min_idx r.verify_max_idx a b d.idx low high at_d in
        apart d.idx above below)
      between

skip_with-keep :
    (r : Ranges) (c : ChunkData) (cs : List ChunkData)
    → Disjoint r
    → eqb_ℤ r.skip_verify_min_idx r.skip_verify_max_idx ≡ false
    → All (λ (d : ChunkData). Between c.idx (last_of c cs).idx d.idx) (c ∷ cs)
    → skip_with r c cs ≡ (keep (skipped r) (c ∷ cs), keep (λ d. not (skipped r d)) (c ∷ cs))
skip_with-keep r c cs apart wide between =
    elim (Bool-cases (verified_range r (min_ℤ c.idx (last_of c cs).idx))) [
      | inr low ↦ rw (wide, low, skip_with) (split-keep (skipped r) (c ∷ cs))
      | inl low ↦ elim (Bool-cases (verified_range r (max_ℤ c.idx (last_of c cs).idx))) [
        | inr high ↦ rw (wide, low, high, skip_with) (split-keep (skipped r) (c ∷ cs))
        | inl high ↦
            let none_is = none_skipped r c.idx (last_of c cs).idx (c ∷ cs) apart low high between in
            rw (wide, low, high, skip_with)
              (λ i. (
                sym (keep-none (skipped r) (c ∷ cs) none_is) i,
                sym (keep-every (skipped r) (c ∷ cs) none_is) i,
              ))
      ]
    ]

-- Where more or fewer than one chunk of the file may be skipped, and no chunk of the batch lies
-- outside the indexes of its first and its last, SkipVerificationOfFirstChunks gives the chunks with
-- an index in the session's range to skip, and the others, both in their order: that it looks at
-- the ends of the batch first changes nothing.
pub skip_verification_of_first_chunks-keep :
    (c : ChunkData) (cs : List ChunkData) (u : UploadSession)
    → eqb_ℤ (ranges u).skip_verify_min_idx (ranges u).skip_verify_max_idx ≡ false
    → All (λ (d : ChunkData). Between c.idx (last_of c cs).idx d.idx) (c ∷ cs)
    → skip_verification_of_first_chunks (c ∷ cs) u
      ≡ (keep (skipped (ranges u)) (c ∷ cs), keep (λ d. not (skipped (ranges u) d)) (c ∷ cs))
unfolding skip_verification_of_first_chunks
skip_verification_of_first_chunks-keep c cs u = skip_with-keep (ranges u) c cs (ranges-Disjoint u)

split-All : (p : ChunkData → Bool) (cs : List ChunkData) → All (λ d. p d ≡ true) (split p cs).0
split-All p [] = tt
split-All p (c ∷ cs) = elim (Bool-cases (p c)) [
  | inl passes ↦ rw (passes, split) (passes, split-All p cs)
  | inr fails ↦ rw (fails, split) (split-All p cs)
]

if-All :
    (b : Bool) (P : ChunkData → Type 0) (x y : List ChunkData × List ChunkData)
    → All P x.0
    → All P y.0
    → All P (if b then x else y).0
if-All true P x y hx hy = hx
if-All false P x y hx hy = hy

-- What is sent as it is lies in the range to skip.
skip-All :
    (cs : List ChunkData) (u : UploadSession)
    → All (λ d. skipped (ranges u) d ≡ true) (skip_verification_of_first_chunks cs u).0
unfolding skip_verification_of_first_chunks
skip-All [] u = tt
skip-All (c ∷ cs) u =
    let r = ranges u in
    let last = last_of c cs in
    let chosen = split (skipped r) (c ∷ cs) in
    let P : ChunkData → Type 0 = λ d. skipped r d ≡ true in
    let inner =
      if-All (verified_range r (min_ℤ c.idx last.idx) && verified_range r (max_ℤ c.idx last.idx)) P
        ([], c ∷ cs) chosen tt (split-All (skipped r) (c ∷ cs)) in
    if-All (eqb_ℤ r.skip_verify_min_idx r.skip_verify_max_idx) P ([], c ∷ cs) _ tt inner

within_bounds : (low high i : ℤ) → in_range low high i ≡ true → (low ≤ℤ i) × (i ≤ℤ high)
within_bounds low high i h = ground arith

apart_lem :
    (n i j : ℤ)
    → pos 0 ≤ℤ n
    → in_range (pos 0) (to_skip n -ℤ pos 1) i ≡ true
    → in_range (n -ℤ to_skip n) (n -ℤ pos 1) j ≡ true
    → i ≢ j
apart_lem (pos n) i j h a b e =
    let (_, at_most) = within_bounds (pos 0) (to_skip (pos n) -ℤ pos 1) i a in
    let (at_least, _) = within_bounds (pos n -ℤ to_skip (pos n)) (pos n -ℤ pos 1) j b in
    let at_j : j ≤ℤ to_skip (pos n) -ℤ pos 1 = rw (← e) at_most in omega int_laws
apart_lem (negsuc n) i j h a b e = omega arith

ranges-alpha :
    (u : UploadSession) → u.type ≡ session_type_alpha → ranges u ≡ alpha_ranges u.num_chunks
unfolding ranges
ranges-alpha u h = rw (ranges, h) refl

ranges-beta : (u : UploadSession) → u.type ≡ session_type_beta → ranges u ≡ beta_ranges u.num_chunks
unfolding ranges
ranges-beta u h = rw (ranges, h) refl

-- No chunk of a file is sent without verification by both of its brokers: what the session of type
-- alpha skips and what the other session of the file skips have no index in common, whatever the
-- batches are.
pub skip_verification_of_first_chunks-apart :
    (u v : UploadSession) (cs ds : List ChunkData)
    → u.type ≡ session_type_alpha
    → v.type ≡ session_type_beta
    → u.num_chunks ≡ v.num_chunks
    → pos 0 ≤ℤ u.num_chunks
    → All
        (λ (c : ChunkData).
          All (λ (d : ChunkData). c.idx ≢ d.idx) (skip_verification_of_first_chunks ds v).0)
        (skip_verification_of_first_chunks cs u).0
skip_verification_of_first_chunks-apart u v cs ds alpha beta same h =
    All-map _ _ (skip_verification_of_first_chunks cs u).0
      (λ (c : ChunkData) at_c.
        All-map _ _ (skip_verification_of_first_chunks ds v).0
          (λ (d : ChunkData) at_d.
            apart_lem u.num_chunks c.idx d.idx h (rw (ranges-alpha u alpha) at at_c)
              (rw (ranges-beta v beta, ← same) at at_d))
          (skip-All ds v))
      (skip-All cs u)
