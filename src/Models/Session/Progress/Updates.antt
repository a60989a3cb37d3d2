-- ===== src/Models/Session/Progress/Updates.antt =====
-- models/upload_sessions.go and jobs/verify_data_maps.go: what single updates do to the indexes,
-- and that every sequence of updates keeps them in order.
use brokernode.Prelude.{
  ◌+◌, ◌≤◌, ◌^◌, ◌≡◌, refl, inl, inr, true, false, List, [], ◌∷◌, length, arith, Bool-cases,
  if◌then◌else◌, All, All-map,
}
use brokernode.Prelude.Int.{ℤ, pos_part, neg_part, ◌≤ℤ◌, eqb_ℤ}
use brokernode.Prelude.Bytes.{Bytes}
use brokernode.Utils.Keys.{ChunkData}
use brokernode.Models.Session.{UploadSession, session_type_alpha, get_treasure_indexes}
use brokernode.Models.Session.Progress.{
  covered, update_index_with_attached_chunks, update_index_with_verified_chunks, down_grade_indexes,
  adjust_indexes, lowest, highest,
}
use brokernode.Models.Session.Progress.Scan.{Reaches}
use brokernode.Models.Session.Progress.Coverage.{
  is_beta, advance-Reaches, ChunksInFile, PlacesInFile,
}
use brokernode.Models.Session.Progress.Invariant.{
  InOrder, attached-InOrder, verified-InOrder, down_grade-InOrder, lowest_bounds, highest_bounds,
}

-- The attached index goes over exactly the longest gapless run of indexes, in the session's
-- direction, that are chunks' or stored treasures', and over no more of them than there are
-- chunks; for an index within 2^60 of zero and at most 2^60 chunks.
pub attached-Reaches :
    {Db : Type 0} (write : UploadSession → Db → Db) (completed_hash : ℤ → Bytes) (u : UploadSession)
    (chunks : List ChunkData) (db : Db)
    → pos_part u.next_idx_to_attach + neg_part u.next_idx_to_attach ≤ 2 ^ 60
    → length chunks ≤ 2 ^ 60
    → Reaches
        (is_beta u)
        (covered completed_hash (get_treasure_indexes u).0 chunks)
        u.next_idx_to_attach
        (length chunks)
        (update_index_with_attached_chunks write completed_hash u chunks db).0.next_idx_to_attach
unfolding update_index_with_attached_chunks
attached-Reaches write completed_hash u chunks db s l =
    advance-Reaches completed_hash u chunks u.next_idx_to_attach s l

-- What a session owes after chunks turned out not to be attached: on the alpha broker both indexes
-- are at or before every one of them, on the beta broker at or behind.
abbrev pub Owes : UploadSession → ChunkData → Type 0
Owes u c =
    if eqb_ℤ u.type session_type_alpha
    then (u.next_idx_to_attach ≤ℤ c.idx) × (u.next_idx_to_verify ≤ℤ c.idx)
    else (c.idx ≤ℤ u.next_idx_to_attach) × (c.idx ≤ℤ u.next_idx_to_verify)

module _ {Db : Type 0} (write : UploadSession → Db → Db) (u : UploadSession) (c : ChunkData)
    (cs : List ChunkData) (db : Db) where
  Owes-alpha :
      (d : ChunkData)
      → eqb_ℤ u.type session_type_alpha ≡ true
      → lowest write c.idx (c ∷ cs) ≤ℤ d.idx
      → Owes (down_grade_indexes write u (c ∷ cs) db).0 d
  unfolding down_grade_indexes
  Owes-alpha d alpha h = rw alpha (rw alpha (ground arith))

  Owes-beta :
      (d : ChunkData)
      → eqb_ℤ u.type session_type_alpha ≡ false
      → d.idx ≤ℤ highest write c.idx (c ∷ cs)
      → Owes (down_grade_indexes write u (c ∷ cs) db).0 d
  unfolding down_grade_indexes
  Owes-beta d beta h = rw beta (rw beta (ground arith))

-- After DownGradeIndexesOnUnattachedChunks every chunk of the file that it was given will be
-- attached and verified again, whatever the session's indexes were.
pub down_grade-Owes :
    {Db : Type 0} (write : UploadSession → Db → Db) (u : UploadSession) (chunks : List ChunkData)
    (db : Db)
    → ChunksInFile u.num_chunks chunks
    → All (Owes (down_grade_indexes write u chunks db).0) chunks
down_grade-Owes write u [] db in_file = tt
down_grade-Owes write u (c ∷ cs) db in_file =
    let (_, _, low) = lowest_bounds write u.num_chunks c.idx (c ∷ cs) in_file (in_file.0.0) in
    let (_, _, high) = highest_bounds write u.num_chunks c.idx (c ∷ cs) in_file (in_file.0.1) in
    elim (Bool-cases (eqb_ℤ u.type session_type_alpha)) [
      | inl alpha ↦ All-map _ _ (c ∷ cs) (λ d h. Owes-alpha write u c cs db d alpha h) low
      | inr beta ↦ All-map _ _ (c ∷ cs) (λ d h. Owes-beta write u c cs db d beta h) high
    ]

-- A session whose attached chunks are all verified and that has none left to attach is taken to
-- the end of its file.
pub adjust-InOrder :
    {Db : Type 0} (write : UploadSession → Db → Db) (u : UploadSession) (chunks : List ChunkData)
    (db : Db)
    → InOrder u
    → InOrder (adjust_indexes write u chunks db).0
unfolding adjust_indexes
adjust-InOrder write u (c ∷ cs) db h =
    elim (Bool-cases (eqb_ℤ u.next_idx_to_attach u.next_idx_to_verify)) [
      | inl same ↦ rw same h
      | inr other ↦ rw other h
    ]
adjust-InOrder write u [] db h =
    elim (Bool-cases (eqb_ℤ u.next_idx_to_attach u.next_idx_to_verify)) [
      | inl same ↦ rw same (record {
        some_chunks = h.some_chunks;
        few_chunks = h.few_chunks;
        order = elim h.order [
          | inl (t, o) ↦
              let alpha : eqb_ℤ u.type session_type_alpha ≡ true = rw t refl in
              inl (t, rw alpha (omega (arith, o)))
          | inr (t, o) ↦
              let beta : eqb_ℤ u.type session_type_alpha ≡ false = rw t refl in
              inr (t, rw beta (omega (arith, o, h.some_chunks)))
        ];
      })
      | inr other ↦ rw other h
    ]

-- One update of a session, with whatever chunks of its file.
pub data Update {Db : Type 0} (write : UploadSession → Db → Db) (u : UploadSession)
    : UploadSession → Type 0 where
  attached :
      (completed_hash : ℤ → Bytes) (chunks : List ChunkData) (db : Db)
      → ChunksInFile u.num_chunks chunks
      → PlacesInFile u.num_chunks (get_treasure_indexes u).0
      → length chunks ≤ 2 ^ 60
      → Update write u (update_index_with_attached_chunks write completed_hash u chunks db).0
  verified :
      (completed_hash : ℤ → Bytes) (chunks : List ChunkData) (db : Db)
      → ChunksInFile u.num_chunks chunks
      → PlacesInFile u.num_chunks (get_treasure_indexes u).0
      → length chunks ≤ 2 ^ 60
      → Update write u (update_index_with_verified_chunks write completed_hash u chunks db).0
  down_graded :
      (chunks : List ChunkData) (db : Db)
      → ChunksInFile u.num_chunks chunks
      → Update write u (down_grade_indexes write u chunks db).0
  adjusted :
      (chunks : List ChunkData) (db : Db) → Update write u (adjust_indexes write u chunks db).0

-- Any number of updates.
pub data Updates {Db : Type 0} (write : UploadSession → Db → Db) (u : UploadSession)
    : UploadSession → Type 0 where
  none_yet : Updates write u u
  and_then : {v w : UploadSession} → Updates write u v → Update write v w → Updates write u w

Update-InOrder :
    {Db : Type 0} (write : UploadSession → Db → Db) (u : UploadSession) {v : UploadSession}
    → Update write u v
    → InOrder u
    → InOrder v
Update-InOrder write u (attached completed_hash chunks db c t l) h =
    attached-InOrder completed_hash u chunks c t l write db h
Update-InOrder write u (verified completed_hash chunks db c t l) h =
    verified-InOrder completed_hash u chunks c t l write db h
Update-InOrder write u (down_graded chunks db c) h = down_grade-InOrder write u chunks db c h
Update-InOrder write u (adjusted chunks db) h = adjust-InOrder write u chunks db h

-- However many updates a session gets, with chunks and treasures that lie in its file, its two
-- indexes stay in order: verification never passes attachment, and neither leaves the file.
pub Updates-InOrder :
    {Db : Type 0} (write : UploadSession → Db → Db) (u : UploadSession) {v : UploadSession}
    → Updates write u v
    → InOrder u
    → InOrder v
Updates-InOrder write u none_yet h = h
Updates-InOrder write u (and_then {v = v} us up) h =
    Update-InOrder write v up (Updates-InOrder write u us h)
