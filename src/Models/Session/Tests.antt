-- ===== src/Models/Session/Tests.antt =====
-- Sessions of small files, and the theorems at concrete inputs.
use brokernode.Models.Session.Samples.{
  alpha_InOrder, alpha_session, beta_session, chunk, log, session,
}
use brokernode.Prelude.{none, Bool, true, ◌≡◌, refl, false, List, [], ◌∷◌, All, arith, length}
use brokernode.Prelude.Word.{wrap64}
use brokernode.Prelude.Int.{ℤ, ◌+ℤ◌, pos}
use brokernode.Prelude.Bytes.{Bytes, codes}
use brokernode.Utils.Keys.{ChunkData}
use brokernode.Utils.Mode.{prod_mode, user_is_paying}
use brokernode.Models.Session.Stores.{Store, Stores, Works, move_chunks_to_completed}
use brokernode.Models.Session.Stores.Kept.{Kept, move_chunks_to_completed-Kept}
use brokernode.Models.Session.Start.{start_upload_session, start_upload_session-InOrder}
use brokernode.Models.Session.{UploadSession, session_type_alpha, get_treasure_indexes}
use brokernode.Models.Session.Progress.{
  covered, update_index_with_attached_chunks, down_grade_indexes,
}
use brokernode.Models.Session.Progress.Scan.{Reaches}
use brokernode.Models.Session.Progress.Coverage.{is_beta}
use brokernode.Models.Session.Progress.Invariant.{InOrder}
use brokernode.Models.Session.Progress.Updates.{
  Owes, attached-Reaches, down_grade-Owes, Updates, attached, and_then, none_yet, Updates-InOrder,
}
use brokernode.Models.Session.Selection.{takes_from}
use brokernode.Models.Session.Selection.Phases.{OnePhase, InOrder-OnePhase}

abbrev no_hash : ℤ → Bytes
no_hash i = []

abbrev a_hash : ℤ → Bytes
a_hash i = codes "h"

abbrev two_to_five : List ChunkData
two_to_five = chunk (pos 2) ∷ chunk (pos 3) ∷ chunk (pos 5) ∷ []

attached-Reaches_example :
    Reaches
      (is_beta alpha_session)
      (covered a_hash (get_treasure_indexes alpha_session).0 two_to_five)
      alpha_session.next_idx_to_attach
      (length two_to_five)
      (update_index_with_attached_chunks log a_hash alpha_session two_to_five
        []).0.next_idx_to_attach
attached-Reaches_example =
    attached-Reaches log a_hash alpha_session two_to_five [] (omega arith) (omega arith)

down_grade-Owes_example :
    All (Owes (down_grade_indexes log alpha_session two_to_five []).0) two_to_five
down_grade-Owes_example =
    down_grade-Owes log alpha_session two_to_five []
      ((omega arith, omega arith), ((omega arith, omega arith), ((omega arith, omega arith), tt)))

two_rounds-Updates :
    Updates log alpha_session
      (update_index_with_attached_chunks log a_hash alpha_session two_to_five []).0
two_rounds-Updates = and_then none_yet (
    attached a_hash two_to_five []
      ((omega arith, omega arith), ((omega arith, omega arith), ((omega arith, omega arith), tt)))
      ((omega arith, omega arith), tt) (omega arith))

Updates-InOrder_example :
    InOrder (update_index_with_attached_chunks log a_hash alpha_session two_to_five []).0
Updates-InOrder_example = Updates-InOrder log alpha_session two_rounds-Updates alpha_InOrder

InOrder-OnePhase_example : OnePhase alpha_session
InOrder-OnePhase_example = InOrder-OnePhase alpha_session alpha_InOrder

abbrev in_store : Bytes → ℤ → ChunkData
in_store hash i = chunk i

abbrev nearly_done : UploadSession
nearly_done = session session_type_alpha (pos 9) (pos 1)

nearly_done_waits : takes_from nearly_done ≡ false
unfolding takes_from wrap64 ◌+ℤ◌
nearly_done_waits = refl

abbrev stored : UploadSession → List UploadSession → Bool × List UploadSession
stored u db = (true, u ∷ db)

beta_session_starts :
    (start_upload_session stored log
      (λ u. 3)
      (λ u. codes "e")
      prod_mode
      user_is_paying
      beta_session
      []).0
    ≡ true
unfolding start_upload_session
beta_session_starts = refl

start_upload_session-InOrder_example :
    InOrder
      (start_upload_session stored log
        (λ u. 3)
        (λ u. codes "e")
        prod_mode
        user_is_paying
        beta_session
        []).1
start_upload_session-InOrder_example =
    start_upload_session-InOrder stored log (λ u. 3) (λ u. codes "e") prod_mode user_is_paying
      beta_session [] 10 refl (omega arith) (omega arith) beta_session_starts

abbrev empty : Store
empty key = none

abbrev stores : Stores
stores = record { messages = empty; hashes = empty; done_messages = empty; done_hashes = empty }

-- Badger writes every message and no hash.
abbrev half_works : Works
half_works = record {
  sets_message = λ key. true;
  sets_hash = λ key. false;
  deletes_message = λ key. true;
  deletes_hash = λ key. true;
}

move_chunks_to_completed-Kept_example :
    Kept half_works alpha_session
      (codes "abc__3")
      two_to_five
      stores
      (move_chunks_to_completed half_works alpha_session two_to_five stores)
move_chunks_to_completed-Kept_example =
    move_chunks_to_completed-Kept half_works alpha_session (codes "abc__3") two_to_five stores
