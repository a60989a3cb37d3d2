-- ===== src/Verify/Kept.antt =====
-- jobs/verify_data_maps.go: looking for a session's chunks again keeps its two indexes in order.
use brokernode.Verify.Ends.{at_keys, get_chunks_to_verify-at_keys, keys_of}
use brokernode.Prelude.Bytes.{Bytes}
use brokernode.Prelude.Slices.{length-slice_end, slice_end}
use brokernode.Iota.{FilteredChunk}
use brokernode.Verify.{
  check_chunks, completed, count_verified, down_graded_by, is_treasure, adjusted_by, check_loop,
  check_fetched, check_session_chunks,
}
use brokernode.Prelude.{
  Bool, Bool-cases, List, [], arith, false, if◌then◌else◌, inl, inr, length, true, ℕ, ◌∷◌, All-drop,
  All-take, drop, suc, take, zero, ◌+◌, ◌-◌, ◌≡◌, All-append, Option, ap, refl, some, leb, ltb,
  ltb→lt, ◌<◌, ◌∙◌, ◌≤◌,
}
use brokernode.Prelude.Int.{ℤ, eqb_ℤ}
use brokernode.Utils.Keys.{ChunkData}
use brokernode.Models.Session.{UploadSession, session_type_alpha}
use brokernode.Models.Session.Progress.{down_grade_indexes, adjust_indexes}
use brokernode.Models.Session.Progress.Coverage.{ChunksInFile}
use brokernode.Models.Session.Progress.Invariant.{down_grade-InOrder}
use brokernode.Models.Session.Progress.Updates.{adjust-InOrder}
use brokernode.Attach.Run.{Setting, Outcome}
use brokernode.Attach.Run.Sizes.{Fits, Fits-append, split-Fits}
use brokernode.Attach.Run.Sizes.Inserted.{insert-Fits}
use brokernode.Attach.Run.Batch.{Legal, Filters, file_bounds, verified-Legal}

same_file : {m n : ℤ} → m ≡ n → (cs : List ChunkData) → ChunksInFile n cs → ChunksInFile m cs
same_file e cs c = rw e c

module _ {Db : Type 0} (write : UploadSession → Db → Db) (sv : Setting) (n : ℤ) where
  if-Legal : (b : Bool) (x y : Outcome Db) → Legal n x → Legal n y → Legal n (if b then x else y)
  if-Legal true x y hx hy = hx
  if-Legal false x y hx hy = hy

  down_graded-Legal :
      (cs : List ChunkData) (o : Outcome Db)
      → ChunksInFile n cs
      → Legal n o
      → Legal n (down_graded_by write sv cs o)
  unfolding down_grade_indexes
  down_graded-Legal [] o c l = record { count = l.count; in_order = l.in_order; places = l.places }
  down_graded-Legal (d ∷ ds) o c l =
      let kept =
        down_grade-InOrder write o.session (d ∷ ds) o.db (same_file l.count (d ∷ ds) c)
          l.in_order in
      elim (Bool-cases (eqb_ℤ o.session.type session_type_alpha)) [
        | inl alpha ↦
            rw (alpha, down_grade_indexes)
              (record {
                count = l.count;
                in_order = rw (alpha, down_grade_indexes) at kept;
                places = l.places;
              })
        | inr beta ↦
            rw (beta, down_grade_indexes)
              (record {
                count = l.count;
                in_order = rw (beta, down_grade_indexes) at kept;
                places = l.places;
              })
      ]

  completed-Legal :
      (f : FilteredChunk) (cs : List ChunkData) (o : Outcome Db)
      → Legal n o
      → Legal n (completed write sv f cs o)
  completed-Legal f cs o l =
      if-Legal _ _ o (record { count = l.count; in_order = l.in_order; places = l.places }) l

  count_verified-Legal :
      (f : FilteredChunk) (matching treasures : List ChunkData) (o : Outcome Db)
      → Fits n 1000 matching
      → Fits n 2000 treasures
      → Legal n o
      → Legal n (count_verified write sv f matching treasures o)
  count_verified-Legal f matching treasures o fm ft l =
      let (l1, l2) = file_bounds n o l in
      if-Legal _ _ o
        (verified-Legal write sv [] n _ o
          (insert-Fits n 1000 2000 matching treasures o.session l1 l2 (omega arith) (omega arith) fm
            ft)
          l)
        l

  widen : (k : ℕ) (cs ds : List ChunkData) → Fits n k cs → Fits n (length cs) ds → Fits n k ds
  widen k cs ds f g = (g.0, omega (arith, f.1, g.1))

  check_chunks-Legal :
      (cs : List ChunkData) (o : Outcome Db)
      → Filters sv.verify
      → Fits n 1000 cs
      → Legal n o
      → Legal n (check_chunks write sv cs o)
  unfolding check_chunks
  check_chunks-Legal cs o law fits l =
      let f = sv.verify cs in
      let (matching, differing, absent) = law n 1000 cs fits in
      let (t1, others) =
        split-Fits n (is_treasure write sv o.session) f.does_not_match_tangle differing.0 in
      let (t2, found) = split-Fits n (is_treasure write sv o.session) f.matches_tangle matching.0 in
      let treasures =
        Fits-append n 1000 1000 _ _ (widen 1000 f.does_not_match_tangle _ differing t1)
          (widen 1000 f.matches_tangle _ matching t2) in
      count_verified-Legal f _ _ _ (widen 1000 f.matches_tangle _ matching found) treasures (
        down_graded-Legal f.not_attached _ absent.0
          (down_graded-Legal _ _ others.0 (completed-Legal f _ o l)))

  -- The loop has ended, in a state that is legal.
  abbrev EndsLegal : Option (Outcome Db) → Type 0
  EndsLegal r = (o' : Outcome Db) × (r ≡ some o') × Legal n o'

  if-EndsLegal :
      (b : Bool) (x y : Option (Outcome Db))
      → (b ≡ true → EndsLegal x)
      → (b ≡ false → EndsLegal y)
      → EndsLegal (if b then x else y)
  if-EndsLegal true x y hx hy = hx refl
  if-EndsLegal false x y hx hy = hy refl

  check_round-Legal :
      (fuel : ℕ) (cs : List ChunkData) (i : ℕ) (o : Outcome Db)
      → Filters sv.verify
      → ChunksInFile n cs
      → Legal n o
      → ((o' : Outcome Db)
          → i + 1000 < length cs
          → Legal n o'
          → EndsLegal (check_loop write sv fuel cs (i + 1000) o'))
      → EndsLegal (check_loop write sv (suc fuel) cs i o)
  unfolding check_loop
  check_round-Legal fuel cs i o law c l next =
      let k = slice_end 1000 (length cs) i - i in
      let slice = take k (drop i cs) in
      let fits : Fits n 1000 slice =
        (All-take _ k (drop i cs) (All-drop _ i cs c), length-slice_end 1000 cs i) in
      let once = check_chunks-Legal slice o law fits l in
      if-EndsLegal (leb (slice_end 1000 (length cs) i) i) (some o) _ (λ past. (o, refl, l))
        (λ on.
          if-EndsLegal (ltb (i + 1000) (length cs)) _ _
            (λ more. next _ (ltb→lt (i + 1000) (length cs) more) once) (λ last. (_, refl, once)))

  -- With a round for each chunk, and one more, the loop ends.
  check_loop-Legal :
      (fuel : ℕ) (cs : List ChunkData) (i : ℕ) (o : Outcome Db)
      → length cs ≤ fuel + i
      → Filters sv.verify
      → ChunksInFile n cs
      → Legal n o
      → EndsLegal (check_loop write sv (suc fuel) cs i o)
  check_loop-Legal zero cs i o enough law c l =
      check_round-Legal zero cs i o law c l (λ o' h l'. absurd (omega arith))
  check_loop-Legal (suc fuel) cs i o enough law c l =
      check_round-Legal (suc fuel) cs i o law c l
        (λ o' h l'. check_loop-Legal fuel cs (i + 1000) o' (omega arith) law c l')

  adjusted-Legal :
      (cs : List ChunkData) (o : Outcome Db) → Legal n o → Legal n (adjusted_by write sv cs o)
  unfolding adjust_indexes
  adjusted-Legal (c ∷ cs) o l =
      elim (Bool-cases (eqb_ℤ o.session.next_idx_to_attach o.session.next_idx_to_verify)) [
        | inl same ↦
            rw (same, adjust_indexes)
              (record { count = l.count; in_order = l.in_order; places = l.places })
        | inr other ↦
            rw (other, adjust_indexes)
              (record { count = l.count; in_order = l.in_order; places = l.places })
      ]
  adjusted-Legal [] o l =
      let kept = adjust-InOrder write o.session [] o.db l.in_order in
      elim (Bool-cases (eqb_ℤ o.session.next_idx_to_attach o.session.next_idx_to_verify)) [
        | inl same ↦
            rw (same, adjust_indexes)
              (record {
                count = l.count;
                in_order = rw (same, adjust_indexes) at kept;
                places = l.places;
              })
        | inr other ↦
            rw (other, adjust_indexes)
              (record { count = l.count; in_order = l.in_order; places = l.places })
      ]

  at_keys-InFile :
      (at_key : Bytes → List ChunkData) (keys : List Bytes)
      → ((k : Bytes) → ChunksInFile n (at_key k))
      → ChunksInFile n (at_keys at_key keys)
  at_keys-InFile at_key [] h = tt
  at_keys-InFile at_key (k ∷ ks) h = All-append _ (at_key k) _ (h k) (at_keys-InFile at_key ks h)

  settled :
      (b : Bool) (o : Outcome Db) (x : Option (Outcome Db))
      → Legal n o
      → (o' : Outcome Db) × (x ≡ some o') × Legal n o'
      → (o' : Outcome Db) × ((if b then some o else x) ≡ some o') × Legal n o'
  settled true o x l h = (o, refl, l)
  settled false o x l h = h

  -- For a session whose indexes are in order and whose treasures lie in its file, a store that answers for
  -- each key by itself with chunks of that file, and a check of the tangle that gives in each of its lists
  -- chunks of the file and no more than it was asked for: checkSessionChunks ends, and leaves a session
  -- whose indexes are in order, whatever is on the tangle and whichever writes fail.
  pub check_session_chunks-Legal :
      (at_key : Bytes → List ChunkData) (fetch : List Bytes → Option (List ChunkData))
      (unassigned : List ChunkData) (o : Outcome Db)
      → ((ks : List Bytes) → fetch ks ≡ some (at_keys at_key ks))
      → ((k : Bytes) → ChunksInFile n (at_key k))
      → Filters sv.verify
      → Legal n o
      → let fuel = length (keys_of (adjusted_by write sv unassigned o).session) + 2 in
        (o' : Outcome Db) × (check_session_chunks write sv fetch fuel unassigned o ≡ some o')
        × Legal n o'
  unfolding check_session_chunks
  check_session_chunks-Legal at_key fetch unassigned o answers inside law l =
      let o1 = adjusted_by write sv unassigned o in
      let l1 = adjusted-Legal unassigned o l in
      let chunks = at_keys at_key (keys_of o1.session) in
      let all = get_chunks_to_verify-at_keys at_key fetch answers o1.session in
      let ended =
        check_loop-Legal (length chunks) chunks 0 o1 (omega arith) law
          (at_keys-InFile at_key _ inside) l1 in
      settled (eqb_ℤ o1.session.next_idx_to_attach o1.session.next_idx_to_verify) o1 _ l1 (
        ended.0,
        ap (λ x. check_fetched write sv x o1) all
            ∙ (ap (λ f. check_loop write sv f chunks 0 o1) (one_more (length chunks)) ∙ ended.1),
        ended.2,
      )
    where
      one_more : (k : ℕ) → k + 1 ≡ suc k
      one_more k = omega arith
