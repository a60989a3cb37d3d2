-- ===== src/Utils/Trytes/Addresses.antt =====
-- utils/trytes_conversion.go: the addresses of chunks, and the runes that have no trytes.
use brokernode.Utils.Indexes.{file_sector_in_chunk_size}
use mathlib.Core.Path.{subst}
use brokernode.Utils.Trytes.RoundTrip.{encode, runes_to_trytes-encode}
use brokernode.Utils.Trytes.{
  runes_to_trytes, chunk_message_to_trytes_with_stopper, hex_pair, to_81, two_trytes, panicked,
  tryte_at, pad_with_9s, bytes_to_trytes, hex_decode, hex_digit, make_address, or_no_trytes,
  address_loop, compute_sector_data_map_address, hash_times, sha256_to_address,
}
use brokernode.Prelude.Bytes.{Bytes}
use brokernode.Prelude.{
  List, Option, ℕ, ◌≡◌, ◌≤◌, none, some, length, ◌<◌, ◌∷◌, All, ltb, ◌/◌, arith, ◌++◌, Bool-cases,
  [], inl, inr, length-take, refl, take, tests, All-map, length-append, length-replicate, replicate,
  ◌-◌, false, ltb→lt, ap, get_elem?, suc, zero, ◌*◌, ◌+◌, ◌∙◌,
}
use brokernode.Prelude.Table.{Any, here, there}

two_trytes-large : (c : ℕ) (o : Option Bytes) → 729 ≤ c → two_trytes c o ≡ none
two_trytes-large c none h = refl
two_trytes-large c (some t) h = rw (two_trytes, refused c h) refl
  where
    refused : (c : ℕ) → 729 ≤ c → tryte_at (c / 27) ≡ none
    refused c h = ground arith

two_trytes-none : (c : ℕ) (o : Option Bytes) → o ≡ none → two_trytes c o ≡ none
two_trytes-none c none h = refl
two_trytes-none c (some t) h = cc

pub runes_to_trytes-panics : (s : List ℕ) → Any (λ c. 729 ≤ c) s → runes_to_trytes s ≡ none
unfolding runes_to_trytes
runes_to_trytes-panics [] h = elim h [ ]
runes_to_trytes-panics (c ∷ s) (here h) = two_trytes-large c _ h
runes_to_trytes-panics (c ∷ s) (there h) = two_trytes-none c _ (runes_to_trytes-panics s h)

-- The digits of a text are below 16 and its bytes below 256.
abbrev SmallDigit : Option ℕ → Type 0
SmallDigit none = Unit
SmallDigit (some x) = x < 16

abbrev Small : Option Bytes → Type 0
Small none = Unit
Small (some t) = All (λ c. c < 256) t

hex_digit-SmallDigit : (c : ℕ) → SmallDigit (hex_digit c)
hex_digit-SmallDigit c = ground arith

hex_pair-Small :
    (a b : Option ℕ) (r : Option Bytes)
    → SmallDigit a
    → SmallDigit b
    → Small r
    → Small (hex_pair a b r)
hex_pair-Small (some a) (some b) (some r) ha hb hr = (omega (arith, ha, hb), hr)
hex_pair-Small none b r ha hb hr = tt
hex_pair-Small (some a) none r ha hb hr = tt
hex_pair-Small (some a) (some b) none ha hb hr = tt

hex_decode-Small : (s : Bytes) → Small (hex_decode s)
unfolding hex_decode
hex_decode-Small [] = tt
hex_decode-Small (a ∷ []) = tt
hex_decode-Small (a ∷ b ∷ s) =
    hex_pair-Small (hex_digit a) (hex_digit b) (hex_decode s) (hex_digit-SmallDigit a)
      (hex_digit-SmallDigit b) (hex_decode-Small s)

module _ (new_trytes : Bytes → Option Bytes) where
  -- A message that NewTrytes does not take and that has a rune of 729 or more stops the program: no error is reported.
  pub chunk_message_to_trytes_with_stopper-panics :
      (s : List ℕ)
      → new_trytes s ≡ none
      → Any (λ c. 729 ≤ c) s
      → chunk_message_to_trytes_with_stopper new_trytes s ≡ panicked
  unfolding chunk_message_to_trytes_with_stopper
  chunk_message_to_trytes_with_stopper-panics s h large =
      rw (chunk_message_to_trytes_with_stopper, h, runes_to_trytes-panics s large) refl

  pad_with_9s_lem :
      (t : Bytes) (n : ℕ) → length t ≤ n → (a : Bytes) × (pad_with_9s t n ≡ some a) × (length a ≡ n)
  unfolding pad_with_9s
  pad_with_9s_lem t n h =
      let nines = replicate (n - length t) b'9' in
      (
        take n (t ++ nines),
        ground arith,
        omega (
          arith,
          length-take n (t ++ nines),
          length-append t nines,
          length-replicate {A = ℕ} (n - length t) b'9',
        ),
      )

  length-take_long : (n : ℕ) (t : Bytes) → n ≤ length t → length (take n t) ≡ n
  length-take_long n t h = omega (arith, length-take n t)

  of_tests : (n : ℕ) → ltb 81 n ≡ false → ltb n 81 ≡ false → n ≡ 81
  of_tests n h k = ground arith

  to_81_lem : (t : Bytes) → (a : Bytes) × (to_81 new_trytes (some t) ≡ some a) × (length a ≡ 81)
  to_81_lem t = elim (Bool-cases (ltb 81 (length t))) [
    | inl long ↦ (
      take 81 t,
      rw (long, to_81) refl,
      length-take_long 81 t (omega (tests, ltb→lt 81 (length t) long)),
    )
    | inr not_long ↦ elim (Bool-cases (ltb (length t) 81)) [
      | inl short ↦
          let (a, made, exact) = pad_with_9s_lem t 81 (ground arith) in
          (a, rw (not_long, short, to_81) made, exact)
      | inr not_short ↦
          (t, rw (not_long, not_short, to_81) refl, of_tests (length t) not_long not_short)
    ]
  ]

  -- The address of any hexadecimal hash is 81 trytes long, whatever NewTrytes takes, and making it
  -- never panics.
  pub make_address_lem :
      (hash b : Bytes)
      → hex_decode hash ≡ some b
      → (a : Bytes) × (make_address new_trytes hash ≡ some a) × (length a ≡ 81)
  unfolding make_address bytes_to_trytes
  make_address_lem hash b h =
      let small = subst Small h (hex_decode-Small hash) in
      let encoded = runes_to_trytes-encode b (All-map _ _ b (λ c l. omega arith) small) in
      let (a, made, exact) = to_81_lem (or_no_trytes new_trytes (new_trytes (encode b))) in
      (a, rw (make_address, h, bytes_to_trytes, encoded) made, exact)

module _ (new_trytes : Bytes → Option Bytes) (sha256 sha384 : Bytes → Bytes) where
  hash_times-add :
      (a j : ℕ) (hash : Bytes)
      → hash_times new_trytes sha256 sha384 j (hash_times new_trytes sha256 sha384 a hash)
        ≡ hash_times new_trytes sha256 sha384 (a + j) hash
  unfolding hash_times
  hash_times-add zero j hash = ap (λ m. hash_times new_trytes sha256 sha384 m hash) (zero_left j)
    where
      zero_left : (j : ℕ) → j ≡ 0 + j
      zero_left j = omega arith
  hash_times-add (suc a) j hash =
      hash_times-add a j (sha256 hash)
      ∙ ap (λ m. hash_times new_trytes sha256 sha384 m hash) (suc_left a j)
    where
      suc_left : (a j : ℕ) → suc (a + j) ≡ suc a + j
      suc_left a j = omega arith

  get_elem?-address_loop :
      (n j : ℕ) (hash : Bytes)
      → j < n
      → get_elem? (address_loop new_trytes sha256 sha384 n hash) j
        ≡ some (
            sha256_to_address new_trytes sha256 sha384 (hash_times new_trytes sha256 sha384 j hash))
  unfolding address_loop hash_times
  get_elem?-address_loop zero j hash h = elim h [ ]
  get_elem?-address_loop (suc n) zero hash h = refl
  get_elem?-address_loop (suc n) (suc j) hash h =
      get_elem?-address_loop n j (sha256 hash) (omega arith)

  -- Below the limit, the j-th address of a sector's data map is that of the genesis hash, hashed as
  -- often as there are chunks in the sectors before it and j times more.
  pub compute_sector_data_map_address_lem :
      (gen_hash : Bytes) (sector_idx max_num_of_hashes j : ℕ)
      → j < max_num_of_hashes
      → get_elem?
          (compute_sector_data_map_address new_trytes sha256 sha384 gen_hash sector_idx
            max_num_of_hashes)
          j
        ≡ some (
            sha256_to_address new_trytes sha256 sha384 (
              hash_times new_trytes sha256 sha384
                (sector_idx * file_sector_in_chunk_size + j)
                gen_hash))
  unfolding compute_sector_data_map_address
  compute_sector_data_map_address_lem gen_hash sector_idx max_num_of_hashes j h =
      get_elem?-address_loop max_num_of_hashes j _ h
      ∙ ap (λ x. some (sha256_to_address new_trytes sha256 sha384 x))
          (hash_times-add (sector_idx * file_sector_in_chunk_size) j gen_hash)
