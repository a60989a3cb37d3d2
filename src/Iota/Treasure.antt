-- ===== src/Iota/Treasure.antt =====
-- services/iota_wrappers.go: the transactions at some addresses, and whether a treasure is attached.
use brokernode.Prelude.{
  All, Bool, Bool-cases, List, Option, [], drop, false, if◌then◌else◌, inl, inr, length, ltb,
  ltb→lt, none, refl, some, suc, take, true, zero, ℕ, ◌*◌, ◌++◌, ◌+◌, ◌-◌, ◌<◌, ◌==◌, ◌∷◌, ◌≡◌, ◌≢◌,
}
use brokernode.Iota.{
  Api, Transaction, max_number_of_address_per_find_transaction_request, objects_of,
}
use brokernode.Prelude.Bytes.{Bytes, bytes_eq}
use brokernode.Prelude.Table.{keep, Any, here, there}
use brokernode.Utils.Float.{ceil_div}

-- The map from addresses to transactions is the list of all of them: what it has at an address.
abbrev pub transactions_at : List Transaction → Bytes → List Transaction
transactions_at ts a = keep (λ (t : Transaction). bytes_eq t.address a) ts

abbrev has_address : List Transaction → Transaction → Bool
has_address [] t = false
has_address (s ∷ ts) t = if bytes_eq s.address t.address then true else has_address ts t

-- len of the map: the number of different addresses.
abbrev pub size_of : List Transaction → ℕ
size_of [] = 0
size_of (t ∷ ts) = if has_address ts t then size_of ts else suc (size_of ts)

module _ (api : Api) where
  abbrev and_objects : Option (List Bytes) → Option (List Transaction)
  and_objects none = none
  and_objects (some hashes) = objects_of api (api.get_trytes hashes)

  abbrev on_found :
      Option (List Transaction)
      → (List Transaction → Option (List Transaction))
      → Option (List Transaction)
  on_found none next = none
  on_found (some ts) next = next ts

  -- The rounds that are left, from round i on; any error ends the loop.
  unfoldable pub find_loop : ℕ → List Bytes → ℕ → List Transaction → Option (List Transaction)
  find_loop zero addresses i found = some found
  find_loop (suc rounds) addresses i found =
      let size = max_number_of_address_per_find_transaction_request in
      let left = length addresses - i * size in
      let slice = take (if ltb left size then left else size) (drop (i * size) addresses) in
      on_found (and_objects (api.find_transactions slice))
        (λ ts. find_loop rounds addresses (i + 1) (found ++ ts))

  -- findTransactions
  abbrev pub find_transactions_at : List Bytes → Option (List Transaction)
  find_transactions_at addresses =
      find_loop (ceil_div (length addresses) max_number_of_address_per_find_transaction_request)
        addresses 0 []

  abbrev pub any_recent : ℕ → List Transaction → Bool
  any_recent passed [] = false
  any_recent passed (t ∷ ts) = if ltb passed t.timestamp then true else any_recent passed ts

  -- The loop of verifyTreasure: `recent` is set by an address and stays set for the next ones.
  abbrev pub recent_at : ℕ → Bool → List Transaction → Bool
  recent_at passed recent [] = false
  recent_at passed recent (t ∷ ts) = if any_recent passed (t ∷ ts) then true else recent

  unfoldable pub recent_loop : ℕ → List Bytes → List Transaction → Bool → Bool
  recent_loop passed [] found recent = true
  recent_loop passed (a ∷ addresses) found recent =
      let rest = recent_loop passed addresses found true in
      if recent_at passed recent (transactions_at found a) then rest else false

  abbrev and_valid : Option Bytes → Option (List Bytes) → Option (List Bytes)
  and_valid (some a) (some rest) = some (a ∷ rest)
  and_valid _ _ = none

  abbrev all_valid : List Bytes → Option (List Bytes)
  all_valid [] = some []
  all_valid (a ∷ as') = and_valid (api.new_trytes a) (all_valid as')

  abbrev with_found :
      List Bytes → Option (List Transaction) → Option (List Bytes × List Transaction)
  with_found as' none = none
  with_found as' (some ts) = some (as', ts)

  abbrev find_all : Option (List Bytes) → Option (List Bytes × List Transaction)
  find_all none = none
  find_all (some as') = with_found as' (find_transactions_at as')

  -- The addresses and the transactions; `none` for an error.
  abbrev pub find_valid : List Bytes → Option (List Bytes × List Transaction)
  find_valid addresses = find_all (all_valid addresses)

  -- The verdict, and whether there was no error.
  abbrev pub judge : ℕ → Option (List Bytes × List Transaction) → Bool × Bool
  judge passed none = (false, false)
  judge passed (some (as', ts)) =
      (if size_of ts == length as' then recent_loop passed as' ts false else false, true)

  -- verifyTreasure, with the time a year ago.
  unfoldable pub verify_treasure : ℕ → List Bytes → Bool × Bool
  unfolding recent_loop find_loop
  verify_treasure passed addresses = judge passed (find_valid addresses)

-- A transaction at the address is later than a year ago.
abbrev pub RecentAt : ℕ → Bytes → List Transaction → Type 0
RecentAt passed a ts = Any (λ (t : Transaction). passed < t.timestamp) (transactions_at ts a)

-- There is a transaction at every address.
abbrev pub Found : List Bytes → List Transaction → Type 0
Found as' ts = All (λ a. transactions_at ts a ≢ []) as'

any_recent-Any :
    (api : Api) (passed : ℕ) (ts : List Transaction)
    → any_recent api passed ts ≡ true
    → Any (λ (t : Transaction). passed < t.timestamp) ts
any_recent-Any api passed [] h = cc
any_recent-Any api passed (t ∷ ts) h = elim (Bool-cases (ltb passed t.timestamp)) [
  | inl late ↦ here (ltb→lt passed t.timestamp late)
  | inr early ↦ there (any_recent-Any api passed ts (rw (early, any_recent) at h))
]

recent_at-some :
    (api : Api) (passed : ℕ) (recent : Bool) (ts : List Transaction)
    → recent_at api passed recent ts ≡ true
    → ts ≢ []
recent_at-some api passed recent [] h = cc
recent_at-some api passed recent (t ∷ ts) h = λ e. cc

recent_at-Any :
    (api : Api) (passed : ℕ) (ts : List Transaction)
    → recent_at api passed false ts ≡ true
    → Any (λ (t : Transaction). passed < t.timestamp) ts
recent_at-Any api passed [] h = cc
recent_at-Any api passed (t ∷ ts) h = elim (Bool-cases (any_recent api passed (t ∷ ts))) [
  | inl late ↦ any_recent-Any api passed (t ∷ ts) late
  | inr early ↦ let refuted : false ≡ true = rw (early, recent_at) at h in cc
]

if-both : (b c : Bool) → (if b then c else false) ≡ true → (b ≡ true) × (c ≡ true)
if-both true c h = (refl, h)
if-both false c h = cc

recent_loop-Found :
    (api : Api) (passed : ℕ) (as' : List Bytes) (ts : List Transaction) (recent : Bool)
    → recent_loop api passed as' ts recent ≡ true
    → Found as' ts
unfolding recent_loop
recent_loop-Found api passed [] ts recent h = tt
recent_loop-Found api passed (a ∷ as') ts recent h =
    let (now, later) = if-both (recent_at api passed recent (transactions_at ts a)) _ h in
    (
      recent_at-some api passed recent (transactions_at ts a) now,
      recent_loop-Found api passed as' ts true later,
    )

-- Where verifyTreasure says that a treasure is attached, there is a transaction at every one of its
-- addresses, and one at the first address that is less than a year old; `as'` and `ts` are
-- the addresses and the transactions that were found.
pub verify_treasure-Found :
    (api : Api) (passed : ℕ) (a : Bytes) (as' : List Bytes) (ts : List Transaction)
    → find_valid api (a ∷ as') ≡ some (a ∷ as', ts)
    → verify_treasure api passed (a ∷ as') ≡ (true, true)
    → Found (a ∷ as') ts × RecentAt passed a ts
unfolding verify_treasure recent_loop
verify_treasure-Found api passed a as' ts e h =
    let judged : judge api passed (some (a ∷ as', ts)) ≡ (true, true) = rw e at h in
    let (_, seen) = if-both (size_of ts == length (a ∷ as')) _ (λ i. (judged i).0) in
    let (now, _) = if-both (recent_at api passed false (transactions_at ts a)) _ seen in
    (
      recent_loop-Found api passed (a ∷ as') ts false seen,
      recent_at-Any api passed (transactions_at ts a) now,
    )
