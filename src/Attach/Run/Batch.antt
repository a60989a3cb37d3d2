-- ===== src/Attach/Run/Batch.antt =====
-- jobs/process_unassigned_chunks.go: a run over a session's chunks keeps its two indexes in order.
use brokernode.Prelude.Slices.{slice_end, length-slice_end}
use brokernode.Attach.Bundles.{bundles, send_chunks-bundles}
use brokernode.Attach.Run.Sizes.Inserted.{insert-Fits}
use brokernode.Attach.Handled.{Handled, handle_treasure_chunks}
use brokernode.Attach.Run.Sizes.{Fits, Fits-append, skip-Fits, handle-Fits}
use brokernode.Attach.Run.{
  Outcome, Setting, completed_hash, attach, count_matching, dispatch_any, handled_batch, sent_to,
  to_send, verified_by, batch_loop, filter_and_assign_chunks_to_channels, then_do, batch,
}
use brokernode.Attach.{ChunkChannel, Sending, skip_verification_of_first_chunks, length, take, drop}
use brokernode.Prelude.{
  ◌^◌, Bool, List, Option, [], false, if◌then◌else◌, none, some, true, ℕ, ◌∷◌, ◌≡◌, arith, ◌++◌,
  suc, zero, ◌+◌, ◌-◌, ◌<◌, All-take, All-drop,
}
use brokernode.Prelude.Int.{ℤ, pos, ◌≤ℤ◌}
use brokernode.Utils.Keys.{ChunkData}
use brokernode.Models.Session.{UploadSession, get_treasure_indexes}
use brokernode.Models.Session.Progress.{
  update_index_with_attached_chunks, update_index_with_verified_chunks,
}
use brokernode.Models.Session.Progress.Coverage.{PlacesInFile, ChunksInFile}
use brokernode.Models.Session.Progress.Invariant.{InOrder, attached-InOrder, verified-InOrder}
use brokernode.Iota.{FilteredChunk, Api, verify_chunk_messages_match_record}
use brokernode.Iota.Matches.{verify-AllThree}
use brokernode.Iota.Sizes.{verify-AtMost}

-- A session whose indexes are in order and whose treasures lie in its file of n chunks.
pub record Legal {Db : Type 0} (n : ℤ) (o : Outcome Db) : Type 0 where
  pub count : o.session.num_chunks ≡ n
  pub in_order : InOrder o.session
  pub places : PlacesInFile n (get_treasure_indexes o.session).0

abbrev pub GivesLegal : {Db : Type 0} → ℤ → Option (Outcome Db) → Type 0
GivesLegal n none = ⊥
GivesLegal n (some o) = Legal n o

-- The three lists have chunks of the file only, if those that are asked for are, and none of them
-- is longer.
abbrev pub Filters : (List ChunkData → FilteredChunk) → Type 0
Filters verify =
    (n : ℤ) (k : ℕ) (cs : List ChunkData)
    → Fits n k cs
    → Fits n k (verify cs).matches_tangle
      × Fits n k (verify cs).does_not_match_tangle
      × Fits n k (verify cs).not_attached

pub file_bounds :
    {Db : Type 0} (n : ℤ) (o : Outcome Db) → Legal n o → (pos 1 ≤ℤ n) × (n ≤ℤ pos (2 ^ 59))
file_bounds n o l = rw (← l.count) (l.in_order.some_chunks, l.in_order.few_chunks)

module _ {Db : Type 0} (write : UploadSession → Db → Db) (sv : Setting)
    (channels : List ChunkChannel) (n : ℤ) where
  attach-Legal :
      (cs : List ChunkData) (o : Outcome Db)
      → Fits n (2 ^ 60) cs
      → Legal n o
      → Legal n (attach write sv channels cs o)
  unfolding update_index_with_attached_chunks
  attach-Legal cs o f l = record {
    count = l.count;
    in_order =
        attached-InOrder (completed_hash o.stores o.session) o.session cs (rw l.count f.0)
          (rw l.count l.places) f.1 write o.db l.in_order;
    places = l.places;
  }

  pub verified-Legal :
      (cs : List ChunkData) (o : Outcome Db)
      → Fits n (2 ^ 60) cs
      → Legal n o
      → Legal n (verified_by write sv channels cs o)
  unfolding update_index_with_verified_chunks
  verified-Legal cs o f l = record {
    count = l.count;
    in_order =
        verified-InOrder (completed_hash o.stores o.session) o.session cs (rw l.count f.0)
          (rw l.count l.places) f.1 write o.db l.in_order;
    places = l.places;
  }

  count_matching-Legal :
      (cs : List ChunkData) (o : Outcome Db)
      → Fits n (2 ^ 60) cs
      → Legal n o
      → Legal n (count_matching write sv channels cs o)
  count_matching-Legal [] o f l = l
  count_matching-Legal (c ∷ cs) o f l = verified-Legal (c ∷ cs) _ f (attach-Legal (c ∷ cs) o f l)

  if-Legal :
      (b : Bool) (x y : Option (Outcome Db))
      → GivesLegal n x
      → GivesLegal n y
      → GivesLegal n (if b then x else y)
  if-Legal true x y hx hy = hx
  if-Legal false x y hx hy = hy

  dispatch_any-Legal :
      (cs : List ChunkData) (o : Outcome Db)
      → 0 < length channels
      → Fits n (2 ^ 60) cs
      → Legal n o
      → GivesLegal n (dispatch_any write sv channels cs o)
  dispatch_any-Legal [] o free f l = l
  dispatch_any-Legal (c ∷ cs) o free f l =
      let l' = attach-Legal (c ∷ cs) o f l in
      let next : (sends : List Sending)
          → GivesLegal n
              (sent_to write sv channels (some sends) (attach write sv channels (c ∷ cs) o)) =
        λ sends. record { count = l'.count; in_order = l'.in_order; places = l'.places } in
      if-Legal _ _ (some o)
        (if-Legal sv.enable_lambda _ _
          (record { count = l'.count; in_order = l'.in_order; places = l'.places })
          (rw (send_chunks-bundles (c ∷ cs) channels free, sent_to)
            (next (bundles (c ∷ cs) channels))))
        l

  handled_batch-Legal :
      (h : Handled) (o : Outcome Db)
      → 0 < length channels
      → Filters sv.verify
      → Fits n 1000 h.to_attach
      → Fits n 1000 h.treasures_to_attach
      → Legal n o
      → GivesLegal n (handled_batch write sv channels h o)
  handled_batch-Legal h o free law fits_chunks fits_treasures l =
      let parts = skip_verification_of_first_chunks h.to_attach o.session in
      let (skip, rest) = skip-Fits n 1000 h.to_attach o.session fits_chunks in
      let (matching, differing, absent) = law n 1000 parts.1 rest in
      let moved : Legal n (record o { stores = h.stores }) = record {
        count = l.count;
        in_order = l.in_order;
        places = l.places;
      } in
      let f = sv.verify parts.1 in
      let l' =
        count_matching-Legal f.matches_tangle (record o { stores = h.stores })
          (matching.0, omega (arith, matching.1)) moved in
      let going =
        Fits-append n 2000 1000 (parts.0 ++ f.not_attached) f.does_not_match_tangle
          (Fits-append n 1000 1000 parts.0 f.not_attached skip absent) differing in
      let (l1, l2) = file_bounds n o l in
      dispatch_any-Legal _ _ free
        (insert-Fits n 3000 1000 (to_send write sv channels parts.0 f) h.treasures_to_attach _ l1 l2
          (omega arith) (omega arith) going fits_treasures)
        (record { count = l'.count; in_order = l'.in_order; places = l'.places })

  then_do-Legal :
      (x : Option (Outcome Db)) (next : Outcome Db → Option (Outcome Db))
      → GivesLegal n x
      → ((o : Outcome Db) → Legal n o → GivesLegal n (next o))
      → GivesLegal n (then_do write sv channels x next)
  then_do-Legal none next h f = h
  then_do-Legal (some o) next h f = f o h

  batch_loop-Legal :
      (fuel : ℕ) (chunks : List ChunkData) (i : ℕ) (o : Outcome Db)
      → 0 < length channels
      → Filters sv.verify
      → ChunksInFile n chunks
      → Legal n o
      → GivesLegal n (batch_loop write sv channels fuel chunks i o)
  unfolding batch_loop batch
  batch_loop-Legal zero chunks i o free law c l = l
  batch_loop-Legal (suc fuel) chunks i o free law c l =
      let k = slice_end 1000 (length chunks) i - i in
      let slice = take k (drop i chunks) in
      let fits : Fits n 1000 slice =
        (All-take _ k (drop i chunks) (All-drop _ i chunks c), length-slice_end 1000 chunks i) in
      let (to_attach, treasures) =
        handle-Fits sv.tangle sv.works o.session n 1000 slice o.stores fits in
      if-Legal _ (some o) _ l (
        then_do-Legal (batch write sv channels slice o) _
          (handled_batch-Legal (handle_treasure_chunks sv.tangle sv.works o.session slice o.stores)
            o free law to_attach treasures l)
          (λ o' l'. batch_loop-Legal fuel chunks (i + 1000) o' free law c l'))

  -- For a session whose indexes are in order and whose treasures lie in its file, chunks of that file, at
  -- least one channel, and a check of the tangle that gives in each of its lists chunks of the file and no
  -- more than it was asked for: FilterAndAssignChunksToChannels does not panic, and leaves a session
  -- whose indexes are in order, whatever is on the tangle and whichever writes fail.
  pub filter_and_assign_chunks_to_channels-Legal :
      (chunks : List ChunkData) (o : Outcome Db)
      → 0 < length channels
      → Filters sv.verify
      → ChunksInFile n chunks
      → Legal n o
      → GivesLegal n (filter_and_assign_chunks_to_channels write sv channels chunks o)
  unfolding filter_and_assign_chunks_to_channels
  filter_and_assign_chunks_to_channels-Legal chunks o =
      batch_loop-Legal (length chunks + 1) chunks 0 o

-- What the wrapper of iota gives is such a filter.
pub verify_chunk_messages_match_record-Filters :
    (api : Api) → Filters (λ cs. (verify_chunk_messages_match_record api cs).0)
verify_chunk_messages_match_record-Filters api n k cs f =
    let (a, b, c) = verify-AllThree api _ cs f.0 in
    let (x, y, z) = verify-AtMost api cs in
    ((a, omega (arith, x, f.1)), (b, omega (arith, y, f.1)), (c, omega (arith, z, f.1)))
