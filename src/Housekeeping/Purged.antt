-- ===== src/Housekeeping/Purged.antt =====
-- jobs/purge_completed_sessions.go: a session is deleted only with a completed upload in its place.
use brokernode.Models.Session.Selection.{get_completed_sessions}
use brokernode.Models.MoveAll.{move_all_chunks_to_completed_badger}
use brokernode.Store.{Badger}
use brokernode.Store.Registry.{Files, OpenStores}
use brokernode.Prelude.Table.{Any, for_each, here, keep, there}
use brokernode.Prelude.Bytes.{Bytes, bytes_eq, bytes_eq_sound}
use brokernode.Housekeeping.{
  Keeping, Sources, address_by_type, create_completed_data_map_if_needed, create_for, created,
  delete_if, new_completed_upload, on_moved, purge_completed_sessions, purge_first, purge_sessions,
  session_has, upload_has, upload_of,
}
use brokernode.Prelude.{
  Bool, Bool-cases, List, Option, [], ap, arith, false, if◌then◌else◌, inl, inr, none, not, refl,
  some, sym, true, ◌&&◌, ◌++◌, ◌∙◌, ◌∷◌, ◌≡◌, ◌⊎◌, map,
}
use brokernode.Unused.{CompletedUpload, upload_before_create}
use brokernode.Models.Session.{UploadSession}
use mathlib.Core.Path.{subst}

abbrev pub HasUpload : Bytes → List CompletedUpload → Type 0
HasUpload h uploads = Any (λ t. upload_has h t ≡ true) uploads

Any-append : {A : Type 0} (P : A → Type 0) (xs ys : List A) → Any P xs → Any P (xs ++ ys)
Any-append P xs ys (here {xs = rest} h) = here h
Any-append P xs ys (there {xs = rest} h) = there (Any-append P rest ys h)

Any-last : {A : Type 0} (P : A → Type 0) (xs : List A) (a : A) → P a → Any P (xs ++ (a ∷ []))
Any-last P [] a h = here h
Any-last P (x ∷ xs) a h = there (Any-last P xs a h)

keep-Any :
    {A : Type 0} (p : A → Bool) (xs : List A) (x : A) (rest : List A)
    → keep p xs ≡ x ∷ rest
    → Any (λ y. p y ≡ true) xs
keep-Any p [] x rest e = absurd cc
keep-Any p (y ∷ ys) x rest e = elim (Bool-cases (p y)) [
  | inl passes ↦ here passes
  | inr fails ↦
      let behind : keep p ys ≡ x ∷ rest = rw (fails, keep) at e in
      there (keep-Any p ys x rest behind)
]

keep-head :
    {A : Type 0} (p : A → Bool) (xs : List A) (x : A) (rest : List A)
    → keep p xs ≡ x ∷ rest
    → p x ≡ true
keep-head p [] x rest e = absurd cc
keep-head p (y ∷ ys) x rest e = elim (Bool-cases (p y)) [
  | inl passes ↦
      let first : y ∷ keep p ys ≡ x ∷ rest = rw (passes, keep) at e in
      let same : y ≡ x = cc in subst (λ z. p z ≡ true) same passes
  | inr fails ↦
      let behind : keep p ys ≡ x ∷ rest = rw (fails, keep) at e in keep-head p ys x rest behind
]

-- Deleting the sessions of another hash.
keep-others :
    (g h : Bytes) (us : List UploadSession)
    → bytes_eq g h ≡ false
    → keep (session_has h) (keep (λ u. not (session_has g u)) us) ≡ keep (session_has h) us
keep-others g h [] ne = refl
keep-others g h (u ∷ us) ne = elim (Bool-cases (session_has g u)) [
  | inl of_g ↦
      let not_h : session_has h u ≡ false =
        subst (λ z. bytes_eq z h ≡ false) (sym (bytes_eq_sound u.genesis_hash g of_g)) ne in
      rw (of_g, not_h, keep) (keep-others g h us ne)
  | inr other ↦ elim (Bool-cases (session_has h u)) [
    | inl of_h ↦ rw (other, of_h, keep) (ap (λ r. u ∷ r) (keep-others g h us ne))
    | inr neither ↦ rw (other, neither, keep) (keep-others g h us ne)
  ]
]

module _ {World Db Txn : Type 0} (fs : Files World Db) (b : Badger World Db Txn) (src : Sources)
    (saves_all : (t : CompletedUpload) → src.saves t ≡ true) where
  -- What making the upload of a session with the hash g leaves.
  record Made (g : Bytes) (s : Keeping World Db) (r : Bool × Keeping World Db) : Type 0 where
    same_sessions : (r.1).sessions ≡ s.sessions
    grows : (h : Bytes) → HasUpload h s.uploads → HasUpload h (r.1).uploads
    has_upload : r.0 ≡ true → HasUpload g (r.1).uploads

  created-Made :
      (g : Bytes) (address : Option Bytes) (u : UploadSession) (s : Keeping World Db)
      → session_has g u ≡ true
      → Made g s (created fs b src address u s)
  unfolding upload_of upload_before_create
  created-Made g none u s e = record {
    same_sessions = refl;
    grows = λ h there_before. there_before;
    has_upload = λ ok. absurd cc;
  }
  created-Made g (some address) u s e =
      let t = upload_of fs b src address u s.uploads in
      rw (saves_all t) (record {
        same_sessions = refl;
        grows = λ h there_before.
            Any-append (λ x. upload_has h x ≡ true) s.uploads (t ∷ []) there_before;
        has_upload = λ ok. Any-last (λ x. upload_has g x ≡ true) s.uploads t e;
      })

  create_for-Made :
      (g : Bytes) (found : List CompletedUpload) (us more : List UploadSession) (u : UploadSession)
      (s : Keeping World Db)
      → keep (upload_has g) s.uploads ≡ found
      → us ≡ u ∷ more
      → session_has g u ≡ true
      → Made g s (create_for fs b src found us s)
  unfolding new_completed_upload
  create_for-Made g (t ∷ found) us more u s e first of_g = record {
    same_sessions = refl;
    grows = λ h there_before. there_before;
    has_upload = λ ok. keep-Any (upload_has g) s.uploads t found e;
  }
  create_for-Made g [] [] more u s e first of_g = absurd cc
  create_for-Made g [] (v ∷ vs) more u s e first of_g =
      let same : v ≡ u = cc in
      created-Made g (address_by_type fs b src v) v s
        (subst (λ z. session_has g z ≡ true) (sym same) of_g)

  either-Made :
      (g : Bytes) (c : Bool) (s : Keeping World Db) (r : Bool × Keeping World Db)
      → Made g s r
      → Made g s (if c then r else (false, s))
  either-Made g true s r m = m
  either-Made g false s r m = record {
    same_sessions = refl;
    grows = λ h there_before. there_before;
    has_upload = λ ok. absurd cc;
  }

  create-Made :
      (g : Bytes) (s : Keeping World Db) (u : UploadSession) (more : List UploadSession)
      → keep (session_has g) s.sessions ≡ u ∷ more
      → Made g s (create_completed_data_map_if_needed fs b src g s)
  unfolding create_completed_data_map_if_needed
  create-Made g s u more e =
      either-Made g (src.find_uploads_works g && src.find_sessions_works g) s _ (
        create_for-Made g (keep (upload_has g) s.uploads) (keep (session_has g) s.sessions) more u s
          refl e (keep-head (session_has g) s.sessions u more e))

  -- The sessions with the hash h are as at first, or there is a completed upload with that hash.
  abbrev pub Safe : Bytes → List UploadSession → Keeping World Db → Type 0
  Safe h base s =
      (keep (session_has h) s.sessions ≡ keep (session_has h) base) ⊎ HasUpload h s.uploads

  delete-Safe :
      (g h : Bytes) (base : List UploadSession) (s : Keeping World Db) (r : Bool × Keeping World Db)
      (c : Bool)
      → Made g s r
      → (c ≡ true → r.0 ≡ true)
      → Safe h base s
      → Safe h base (delete_if fs b src c g (r.1))
  delete-Safe g h base s r false m f (inl as_before) =
      inl (ap (keep (session_has h)) m.same_sessions ∙ as_before)
  delete-Safe g h base s r false m f (inr has) = inr (m.grows h has)
  delete-Safe g h base s r true m f (inr has) = inr (m.grows h has)
  delete-Safe g h base s r true m f (inl as_before) = elim (Bool-cases (bytes_eq g h)) [
    | inl same ↦
        inr
          (subst (λ x. HasUpload x (r.1).uploads) (bytes_eq_sound g h same) (m.has_upload (f refl)))
    | inr other ↦ inl (
        keep-others g h (r.1).sessions other
        ∙ (ap (keep (session_has h)) m.same_sessions ∙ as_before))
  ]

  moved-Safe :
      (g h : Bytes) (base : List UploadSession) (s : Keeping World Db) (u : UploadSession)
      (more : List UploadSession) (moved : Option (Bool × OpenStores World Db))
      → keep (session_has g) s.sessions ≡ u ∷ more
      → Safe h base s
      → Safe h base (on_moved fs b src moved g s)
  moved-Safe g h base s u more none e k = k
  moved-Safe g h base s u more (some (false, stores')) e k = k
  moved-Safe g h base s u more (some (true, stores')) e k =
      let s' = record s { stores = stores' } in
      let r = create_completed_data_map_if_needed fs b src g s' in
      delete-Safe g h base s' r (r.0 && src.delete_sessions_works g) (create-Made g s' u more e)
        (and_first (r.0) (src.delete_sessions_works g)) k
    where
      and_first : (x y : Bool) → (x && y) ≡ true → x ≡ true
      and_first x y e = ground arith

  first-Safe :
      (g h : Bytes) (base : List UploadSession) (s : Keeping World Db) (us : List UploadSession)
      → keep (session_has g) s.sessions ≡ us
      → Safe h base s
      → Safe h base (purge_first fs b src g us s)
  first-Safe g h base s [] e k = k
  first-Safe g h base s (u ∷ more) e k =
      moved-Safe g h base s u more
        (move_all_chunks_to_completed_badger fs b u.genesis_hash u.num_chunks s.stores) e k

  purge-Safe :
      (g h : Bytes) (base : List UploadSession) (s : Keeping World Db)
      → Safe h base s
      → Safe h base (purge_sessions fs b src g s)
  unfolding purge_sessions
  purge-Safe g h base s k = elim (Bool-cases (src.find_sessions_works g)) [
    | inl works ↦ rw works (first-Safe g h base s (keep (session_has g) s.sessions) refl k)
    | inr fails ↦ rw fails k
  ]

  loop-Safe :
      (gs : List Bytes) (h : Bytes) (base : List UploadSession) (s : Keeping World Db)
      → Safe h base s
      → Safe h base (for_each (purge_sessions fs b src) gs s)
  loop-Safe [] h base s k = k
  loop-Safe (g ∷ gs) h base s k =
      loop-Safe gs h base (purge_sessions fs b src g s) (purge-Safe g h base s k)

  -- Where the database saves every row of a completed upload: after PurgeCompletedSessions the upload
  -- sessions with a genesis hash are those from before, in their order, or there is a completed upload
  -- with that hash, so that no session is deleted without the row from which its unused PRL are claimed.
  pub purge_completed_sessions-Safe :
      (h : Bytes) (s : Keeping World Db) → Safe h s.sessions (purge_completed_sessions fs b src s)
  unfolding purge_completed_sessions
  purge_completed_sessions-Safe h s =
      loop-Safe
        (map (λ (u : UploadSession). u.genesis_hash)
          (get_completed_sessions (src.select s.sessions)).0)
        h s.sessions s (inl refl)
