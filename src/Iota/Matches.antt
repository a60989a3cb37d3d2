-- ===== src/Iota/Matches.antt =====
-- services/iota_wrappers.go: what the three lists of filtered chunks say of the tangle.
use brokernode.Prelude.{
  Bool, Bool-cases, List, Option, [], false, inl, inr, none, some, true, ◌∷◌, ◌≡◌, All, ap,
  if◌then◌else◌, refl, suc, sym, zero, ℕ, ◌+◌, ◌∙◌,
}
use brokernode.Iota.{
  Api, FilteredChunk, Transaction, TransactionMap, check_tx_objects_for_match, contains,
  make_transaction_objects_map, or_absent, filter_chunks, objects_of, sort_at, sort_loop, sort_one,
  verify_chunk_messages_match_record, copied, on_addresses, on_response, verify_chunks_match_record,
  chunks_match, prefer, fetch_loop, length,
}
use brokernode.Prelude.Bytes.{Bytes, bytes_eq, bytes_eq_sound}
use brokernode.Prelude.Table.{All-keep}
use brokernode.Utils.Keys.{ChunkData}

-- All three lists have only chunks that satisfy P.
abbrev pub AllThree : (ChunkData → Type 0) → FilteredChunk → Type 0
AllThree P f = All P f.matches_tangle × All P f.does_not_match_tangle × All P f.not_attached

module _ (api : Api) (P : ChunkData → Type 0) where
  sort_one-AllThree :
      (o : Option (List Transaction)) (check : Bool) (c : ChunkData) (f : FilteredChunk)
      → P c
      → AllThree P f
      → AllThree P (sort_one api o check c f)
  sort_one-AllThree none check c f p h = (h.0, h.1, (p, h.2))
  sort_one-AllThree (some ts) check c f p h =
      elim (Bool-cases (check_tx_objects_for_match ts c check)) [
        | inl matches ↦ rw (matches, sort_one) ((p, h.0), h.1, h.2)
        | inr differs ↦ rw (differs, sort_one) (h.0, (p, h.1), h.2)
      ]

  sort_at-AllThree :
      (m : TransactionMap) (check : Bool) (c : ChunkData) (o : Option Bytes) (f : FilteredChunk)
      → P c
      → AllThree P f
      → AllThree P (sort_at api m check c o f)
  sort_at-AllThree m check c none f p h = h
  sort_at-AllThree m check c (some a) f p h = sort_one-AllThree (m a) check c f p h

  sort_loop-AllThree :
      (m : TransactionMap) (check : Bool) (cs : List ChunkData)
      → All P cs
      → AllThree P (sort_loop api m check cs)
  unfolding sort_loop
  sort_loop-AllThree m check [] h = (tt, tt, tt)
  sort_loop-AllThree m check (c ∷ cs) h =
      sort_at-AllThree m check c (api.new_trytes c.address) _ h.0
        (sort_loop-AllThree m check cs h.1)

  on_response-AllThree :
      (cs : List ChunkData) (check : Bool) (o : Option (List Bytes))
      → All P cs
      → AllThree P (on_response api cs check o).0
  unfolding filter_chunks
  on_response-AllThree cs check none h = (tt, tt, tt)
  on_response-AllThree cs check (some []) h = (tt, tt, h)
  on_response-AllThree cs check (some (x ∷ xs)) h = sort_loop-AllThree _ check cs h

  on_addresses-AllThree :
      (cs : List ChunkData) (check : Bool) (as' : List Bytes)
      → All P cs
      → AllThree P (on_addresses api cs check as').0
  on_addresses-AllThree cs check [] h = (tt, tt, tt)
  on_addresses-AllThree cs check (a ∷ as') h = on_response-AllThree cs check _ h

  -- What holds of all chunks that are asked for holds of the chunks in the three lists.
  pub verify-AllThree :
      (cs : List ChunkData) → All P cs → AllThree P (verify_chunk_messages_match_record api cs).0
  unfolding verify_chunk_messages_match_record verify_chunks_match_record
  verify-AllThree cs h = on_addresses-AllThree cs false _ h

-- A chunk with its message on the tangle: a transaction that iota gave, at the chunk's address, whose
-- fragment contains the message.
pub record Matching (api : Api) (OnTangle : Transaction → Type 0) (c : ChunkData) : Type 0 where
  pub transaction : Transaction
  pub on_tangle : OnTangle transaction
  pub at_address : api.new_trytes c.address ≡ some transaction.address
  pub same_message : contains transaction.signature_message_fragment c.message ≡ true

-- What is there is made of such transactions.
abbrev pub Given : (Transaction → Type 0) → Option (List Transaction) → Type 0
Given P none = Unit
Given P (some ts) = All P ts

module _ (api : Api) (OnTangle : Transaction → Type 0)
    (answered : (hashes : List Bytes)
      → Given OnTangle (objects_of api (api.get_trytes hashes))) where
  abbrev At : Bytes → Transaction → Type 0
  At a t = OnTangle t × (bytes_eq t.address a ≡ true)

  -- The map has under each address transactions that iota gave, and of that address.
  abbrev Sound : TransactionMap → Type 0
  Sound m = (a : Bytes) → Given (At a) (m a)

  or_absent-Given :
      (a : Bytes) (ts : List Transaction) → All (At a) ts → Given (At a) (or_absent ts)
  or_absent-Given a [] h = tt
  or_absent-Given a (t ∷ ts) h = h

  prefer-Given :
      (a : Bytes) (o p : Option (List Transaction))
      → Given (At a) o
      → Given (At a) p
      → Given (At a) (prefer o p)
  prefer-Given a none p h k = k
  prefer-Given a (some ts) p h k = h

  copied-Sound :
      (o : Option (List Transaction)) (m : TransactionMap)
      → Given OnTangle o
      → Sound m
      → Sound (copied api o m)
  unfolding make_transaction_objects_map
  copied-Sound none m h s = s
  copied-Sound (some ts) m h s = λ a.
      prefer-Given a (make_transaction_objects_map ts a) (m a)
        (or_absent-Given a _ (All-keep OnTangle (λ (t : Transaction). bytes_eq t.address a) ts h))
        (s a)

  if-Sound : (b : Bool) (m n : TransactionMap) → Sound m → Sound n → Sound (if b then m else n)
  if-Sound true m n h k = h
  if-Sound false m n h k = k

  fetch_loop-Sound :
      (fuel : ℕ) (hashes : List Bytes) (i : ℕ) (m : TransactionMap)
      → Sound m
      → Sound (fetch_loop api fuel hashes i m)
  unfolding fetch_loop
  fetch_loop-Sound zero hashes i m s = s
  fetch_loop-Sound (suc fuel) hashes i m s =
      if-Sound _ m _ s (fetch_loop-Sound fuel hashes _ _ (copied-Sound _ m (answered _) s))

  check-Matching :
      (a : Bytes) (ts : List Transaction) (c : ChunkData)
      → api.new_trytes c.address ≡ some a
      → All (At a) ts
      → check_tx_objects_for_match ts c false ≡ true
      → Matching api OnTangle c
  unfolding check_tx_objects_for_match chunks_match
  check-Matching a [] c valid h e = cc
  check-Matching a (t ∷ ts) c valid h e =
      elim (Bool-cases (contains t.signature_message_fragment c.message)) [
        | inl same ↦ record {
          transaction = t;
          on_tangle = h.0.0;
          at_address = valid ∙ ap some (sym (bytes_eq_sound t.address a (h.0.1)));
          same_message = same;
        }
        | inr other ↦
            check-Matching a ts c valid h.1
              (rw (other, check_tx_objects_for_match, chunks_match) at e)
      ]

  Matches : FilteredChunk → Type 0
  Matches f = All (Matching api OnTangle) f.matches_tangle

  sort_one-Matches :
      (a : Bytes) (o : Option (List Transaction)) (c : ChunkData) (f : FilteredChunk)
      → api.new_trytes c.address ≡ some a
      → Given (At a) o
      → Matches f
      → Matches (sort_one api o false c f)
  unfolding Matches
  sort_one-Matches a none c f valid h k = k
  sort_one-Matches a (some ts) c f valid h k =
      elim (Bool-cases (check_tx_objects_for_match ts c false)) [
        | inl matches ↦ rw (matches, sort_one) (check-Matching a ts c valid h matches, k)
        | inr differs ↦ rw (differs, sort_one) k
      ]

  sort_at-Matches :
      (m : TransactionMap) (c : ChunkData) (o : Option Bytes) (f : FilteredChunk)
      → api.new_trytes c.address ≡ o
      → Sound m
      → Matches f
      → Matches (sort_at api m false c o f)
  sort_at-Matches m c none f e s k = k
  sort_at-Matches m c (some a) f e s k = sort_one-Matches a (m a) c f e (s a) k

  sort_loop-Matches :
      (m : TransactionMap) (cs : List ChunkData) → Sound m → Matches (sort_loop api m false cs)
  unfolding sort_loop Matches
  sort_loop-Matches m [] s = tt
  sort_loop-Matches m (c ∷ cs) s =
      sort_at-Matches m c (api.new_trytes c.address) _ refl s (sort_loop-Matches m cs s)

  on_response-Matches :
      (cs : List ChunkData) (o : Option (List Bytes)) → Matches (on_response api cs false o).0
  unfolding filter_chunks Matches
  on_response-Matches cs none = tt
  on_response-Matches cs (some []) = tt
  on_response-Matches cs (some (x ∷ xs)) =
      sort_loop-Matches _ cs
        (fetch_loop-Sound (length (x ∷ xs) + 1) (x ∷ xs) 0 (λ a. none) (λ a. tt))

  on_addresses-Matches :
      (cs : List ChunkData) (as' : List Bytes) → Matches (on_addresses api cs false as').0
  unfolding Matches
  on_addresses-Matches cs [] = tt
  on_addresses-Matches cs (a ∷ as') = on_response-Matches cs (api.find_transactions (a ∷ as'))

  -- A chunk that is said to match the tangle has its message there: iota gave a transaction at the
  -- chunk's address whose fragment contains the chunk's message. `OnTangle` is any predicate that
  -- all transactions satisfy that iota gives.
  pub verify_chunk_messages_match_record-Matching :
      (chunks : List ChunkData)
      → All (Matching api OnTangle) (verify_chunk_messages_match_record api chunks).0.matches_tangle
  unfolding verify_chunk_messages_match_record verify_chunks_match_record Matches
  verify_chunk_messages_match_record-Matching chunks = on_addresses-Matches chunks _
