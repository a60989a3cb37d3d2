-- ===== src/Models/Session/Samples.antt =====
-- Sessions of models/upload_sessions.go to try the definitions on.
-- A session of ten chunks, with a treasure at index 4.
use brokernode.Utils.Keys.{ChunkData}
use brokernode.Prelude.Int.{pos, ℤ}
use brokernode.Prelude.Bytes.{codes}
use brokernode.Prelude.{List, [], arith, inl, refl, some, ◌∷◌}
use brokernode.Models.Session.Progress.Invariant.{InOrder}
use brokernode.Models.Session.{UploadSession, json, session_type_alpha, session_type_beta}

abbrev pub session : ℤ → ℤ → ℤ → UploadSession
session type attach verify = record {
  id = 7;
  updated_at = 100;
  genesis_hash = codes "abc";
  num_chunks = pos 10;
  file_size_bytes = 10000;
  storage_length_in_years = pos 1;
  type = type;
  eth_addr_alpha = some (codes "0xa");
  eth_addr_beta = some (codes "0xb");
  eth_private_key = codes "key";
  total_cost = 1;
  payment_status = pos 3;
  treasure_status = pos 3;
  treasure_idx_map =
      json (record { sector = pos 0; idx = pos 4; encryption_idx = pos 1; key = codes "k" } ∷ []);
  version = 2;
  next_idx_to_attach = attach;
  next_idx_to_verify = verify;
  all_data_ready = pos 2;
  treasure_responsibility_status = pos 0;
  storage_method = pos 2;
}

abbrev pub alpha_session : UploadSession
alpha_session = session session_type_alpha (pos 2) (pos 1)

abbrev pub beta_session : UploadSession
beta_session = session session_type_beta (pos 9) (pos 9)

abbrev pub chunk : ℤ → ChunkData
chunk i = record {
  address = codes "A";
  hash = codes "H";
  message = codes "M";
  raw_message = codes "R";
  idx = i;
  genesis_hash = codes "abc";
}

-- The database is the list of the rows written.
abbrev pub log : UploadSession → List UploadSession → List UploadSession
log u db = u ∷ db

pub alpha_InOrder : InOrder alpha_session
alpha_InOrder = record {
  some_chunks = omega arith;
  few_chunks = omega arith;
  order = inl (refl, (omega arith, omega arith, omega arith));
}
