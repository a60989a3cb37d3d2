-- ===== src/Housekeeping/Tests.antt =====
-- A completed session, and the purge of it.
use brokernode.Models.Session.{session_type_alpha}
use brokernode.Utils.Mode.{prod_mode, user_is_paying}
use brokernode.Store.Samples.{small_files, small_badger, no_stores}
use brokernode.Store.{Write}
use brokernode.Prelude.Table.{keep}
use brokernode.Prelude.Int.{pos}
use brokernode.Prelude.Bytes.{codes}
use brokernode.Housekeeping.{Keeping, Sources, purge_completed_sessions}
use brokernode.Prelude.{Bool, List, [], length, refl, some, true, ℕ, ◌+◌, ◌∷◌}
use brokernode.Models.Session.Samples.{session}
use brokernode.Housekeeping.Purged.{purge_completed_sessions-Safe, Safe}

-- Whether the database saves rows of completed uploads.
abbrev sources : Bool → Sources
sources saving = record {
  hours = 100;
  updated_hour = λ u. 1;
  select = λ table test. some (keep test table);
  find_sessions_works = λ h. true;
  find_uploads_works = λ h. true;
  delete_sessions_works = λ h. true;
  find_unpaid_works = true;
  delete_session_works = λ u. true;
  saves = λ t. saving;
  stored_key = λ u. codes "key";
  new_id = λ uploads. length uploads + 1;
  now_time = 1000;
  broker_mode = prod_mode;
  payment_mode = user_is_paying;
  prl_balance = λ addr. pos 0;
}

abbrev one_session : Keeping (List Write) ℕ
one_session = record {
  sessions = session session_type_alpha (pos 10) (pos 10) ∷ [];
  uploads = [];
  stores = no_stores;
}

purge_completed_sessions-Safe_example :
    Safe small_files small_badger
      (sources true)
      (λ t. refl)
      (codes "abc")
      one_session.sessions
      (purge_completed_sessions small_files small_badger (sources true) one_session)
purge_completed_sessions-Safe_example =
    purge_completed_sessions-Safe small_files small_badger (sources true) (λ t. refl) (codes "abc")
      one_session
