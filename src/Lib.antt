-- ===== src/Lib.antt =====
-- The brokernode: a server that takes uploads, attaches their chunks to the tangle, is paid for them
-- in PRL, and buries part of the payment as treasures in the uploads. An upload has a session on an
-- alpha broker and one on a beta broker, which work from the two ends of the file towards each other.
-- Timed jobs (jobs/) read rows of tables (models/), change them and write them back.
--
-- Prelude: shared names, Boolean tests, lists, integers, int64's wrap-around (Word), texts as lists of
--   bytes, tables as lists of rows with what a loop over selected rows does to them (Table), the same
--   beside the state of a chain (Rows), and the slices that a loop takes of a list (Slices).
-- Utils: utils/trytes_conversion.go (Trytes), utils/utils.go (Indexes: how many chunks a file has,
--   where its treasures lie and where its chunks go), utils/kv_store.go (Keys: the keys of the chunk
--   stores), utils/mode.go (Mode), and the float64 arithmetic that utils.go uses (Float).
-- Models.Session: models/upload_sessions.go. The row of a session, its defaults, how it starts
--   (Start), how its two indexes move (Progress, with adjustIndexes of jobs/verify_data_maps.go),
--   which sessions and chunks the jobs work on (Selection), and the move of chunks between badger's
--   stores (Stores).
-- Store: utils/kv_store.go. Badger is an interface of a world, handles and transactions, with what it
--   documents of them as a record of laws; the batched writes, reads and deletes (Store), what they leave
--   (Refine, Pairs, RoundTrip, Agree), the registry of open stores (Registry), the batches on the store
--   of a name (Registry.Batches), and the data of chunks (Registry.Batches.Chunks).
-- Models.DataMaps, Models.MoveAll, Models.Readiness: models/upload_sessions.go over these stores: the
--   hashes of an upload's chunks, the move of all its chunks to the completed stores, whether its data has
--   arrived, and the messages that a client sends.
-- Iota: services/iota_wrappers.go, which chunks are on the tangle and with which message
--   (Matches), and whether a treasure is attached (Treasure).
-- Attach: jobs/process_unassigned_chunks.go. What becomes of a batch of chunks: its treasures (Handled), the
--   chunks that are not verified first (Verified), the treasures put back between the others (Ordered),
--   the bundles for the channels (Bundles), and the run over all batches (Run).
-- Verify: jobs/verify_data_maps.go, the chunks of a session that are looked for again.
-- Payments: models/broker_broker_transactions.go, jobs/check_alpha_payments.go and
--   jobs/check_beta_payments.go. The state is the table of transactions, the table of sessions and the
--   chain. Jobs.Moves has the graphs of statuses, Jobs.Transfers what becomes of the money.
-- Treasures: models/treasure.go and jobs/bury_treasure_addresses.go. The state is the table of
--   treasures, that of stored genesis hashes and the chain. Bury.Graph has the graph of statuses.
-- Claims: models/webnode_treasure_claims.go and jobs/claim_treasure_for_webnode.go (Claims and Job):
--   the claims of webnodes on treasures, with the status of the PRL and that of the gas.
-- Unused: models/completed_uploads.go and jobs/claim_unused_prls.go: the PRL that are left at the address
--   of an upload, fetched back in steps (Job.Moves) over the statuses of its PRL and its gas.
-- Housekeeping: jobs/purge_completed_sessions.go and jobs/remove_unpaid_upload_session.go.
--
-- A definition has the name of the Go function in snake_case. A `for` over rows is `for_each` of a body
-- whose name ends in _of; the rows are those that the query answered before the loop, as in the code.
-- A write replaces the row with the same key and fails when the parameter for it says so; an error that
-- the code logs and passes over leaves the state as it is. Times are natural numbers. Texts that the
-- database compares are compared byte by byte.
--
-- Parameters: the database's answers (which queries and writes work), the chain behind the Ethereum
-- gateway (balances, gas prices, transfers), the client library of iota, md5, sha256 and sha384, the
-- random numbers, the price of an upload and the encryption of keys. They are any functions, but
-- where a theorem names what it asks of them.
--
-- Fuel: the loop over indexes of a session runs at most once for each chunk given, and has one round
-- more; the loop of GenerateBulkKeys has two rounds more than the distance of its ends. The theorems on
-- these loops are about the functions with that fuel, and give the whole result. The loops that take a
-- thousand elements at a time have as many rounds as there are elements, and one or two more; SendChunks
-- has one more than channels; the loop that inserts treasures has two more than the distance of its ends.
-- The two loops of verify_data_maps.go give none where they run out of fuel.
--
-- The windows of a hundred keys of the move of all chunks have as many rounds as there are chunks, and the
-- theorem on them shows that this is enough. The fifty retries of opening a store, and the rounds over the
-- chunks of an upload, are structural.
--
-- Not modelled: HTTP handlers, the gateways to Ethereum and AWS, proof of work, metrics and logging,
-- which are input and output through libraries; and the data maps in SQL, the signing and attachment of
-- treasures and the webnodes, which the parts above do not stand on. What badger does with entries whose time
-- to live has passed is left to its interface: contents are the entries as written, with that time.
pub mod Prelude
pub mod Utils
pub mod Models
pub mod Iota
pub mod Attach
pub mod Verify
pub mod Payments
pub mod Treasures
pub mod Claims
pub mod Store
pub mod Unused
pub mod Housekeeping
