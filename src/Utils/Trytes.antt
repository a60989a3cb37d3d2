-- ===== src/Utils/Trytes.antt =====
-- utils/trytes_conversion.go: texts and bytes as trytes, and the addresses of chunks. A text is the list
-- of its runes, which for a text of trytes are its bytes.
pub mod RoundTrip
pub mod Addresses
mod Tests
use brokernode.Prelude.{
  ℕ, zero, suc, ◌+◌, ◌-◌, ◌*◌, ◌/◌, ◌%◌, Bool, true, false, Option, none, some, List, [], ◌∷◌, ◌++◌,
  ltb, leb, ◌==◌, ◌&&◌, if◌then◌else◌, length, take, replicate,
}
use brokernode.Prelude.Int.{ℤ, pos, negsuc, ◌+ℤ◌, ◌*ℤ◌}
use brokernode.Prelude.Bytes.{Bytes, codes}
use brokernode.Utils.Indexes.{file_sector_in_chunk_size}

-- TrytesAlphabet[v], which panics out of range.
abbrev pub tryte_at : ℕ → Option ℕ
tryte_at v = if v == 0 then some b'9' else if ltb v 27 then some (b'A' + (v - 1)) else none

-- Where a tryte stands in TrytesAlphabet, and -1 for what is not one.
abbrev pub index_of : ℕ → ℤ
index_of c =
    if c == b'9' then pos 0 else if leb b'A' c && leb c b'Z' then pos (c - b'A' + 1) else negsuc 0

-- The two trytes of a number, in front of the trytes after it.
abbrev pub two_trytes : ℕ → Option Bytes → Option Bytes
two_trytes c none = none
two_trytes c (some rest) = elim (tryte_at (c / 27)) [
  | none ↦ none
  | some t ↦ elim (tryte_at (c % 27)) [ none ↦ none | some s ↦ some (s ∷ t ∷ rest) ]
]

-- RunesToTrytes: `none` is a panic, of an index past the alphabet.
unfoldable pub runes_to_trytes : List ℕ → Option Bytes
runes_to_trytes [] = some []
runes_to_trytes (c ∷ s) = two_trytes c (runes_to_trytes s)

-- What a conversion that reports errors gives.
pub data Converted : Type 0 where
  converted : Bytes → Converted
  refused panicked : Converted

abbrev pub of_trytes : Option Bytes → Converted
of_trytes none = panicked
of_trytes (some t) = converted t

abbrev pub all_ascii : List ℕ → Bool
all_ascii [] = true
all_ascii (c ∷ s) = leb c 255 && all_ascii s

-- AsciiToTrytes
unfoldable pub ascii_to_trytes : List ℕ → Converted
unfolding runes_to_trytes
ascii_to_trytes s = if all_ascii s then of_trytes (runes_to_trytes s) else refused

-- string(decimalValue): what is no rune becomes the replacement rune.
abbrev pub rune_of : ℤ → ℕ
rune_of (pos n) = n
rune_of (negsuc n) = 0xfffd

-- TrytesToAscii: `none` for a text of odd length.
unfoldable pub trytes_to_ascii : Bytes → Option (List ℕ)
trytes_to_ascii [] = some []
trytes_to_ascii (s ∷ []) = none
trytes_to_ascii (s ∷ t ∷ rest) = elim (trytes_to_ascii rest) [
  | none ↦ none
  | some runes ↦ some (rune_of (index_of s +ℤ index_of t *ℤ pos 27) ∷ runes)
]

-- The text up to its last tryte that is not 9.
abbrev pub in_front : ℕ → Bytes → Bytes
in_front c [] = if c == b'9' then [] else c ∷ []
in_front c (d ∷ t) = c ∷ d ∷ t

unfoldable pub trim_nines : Bytes → Bytes
trim_nines [] = []
trim_nines (c ∷ s) = in_front c (trim_nines s)

-- TrytesToAsciiTrimmed
unfoldable pub trytes_to_ascii_trimmed : Bytes → Option (List ℕ)
unfolding trim_nines trytes_to_ascii
trytes_to_ascii_trimmed s =
    let trimmed = trim_nines s in
    trytes_to_ascii (if length trimmed % 2 == 0 then trimmed else trimmed ++ b'9' ∷ [])

-- byte(decimal)
abbrev pub byte_of : ℤ → ℕ
byte_of (pos n) = n % 256
byte_of (negsuc n) = 255 - n % 256

-- TrytesToBytes: `none` is the panic for a text of odd length.
unfoldable pub trytes_to_bytes : Bytes → Option Bytes
trytes_to_bytes [] = some []
trytes_to_bytes (s ∷ []) = none
trytes_to_bytes (s ∷ t ∷ rest) = elim (trytes_to_bytes rest) [
  | none ↦ none
  | some bytes ↦ some (byte_of (index_of s +ℤ index_of t *ℤ pos 27) ∷ bytes)
]

-- One digit of hex.DecodeString, and the whole: `none` is an error.
abbrev pub hex_digit : ℕ → Option ℕ
hex_digit c =
    if leb b'0' c && leb c b'9'
    then some (c - b'0')
    else if leb b'a' c && leb c b'f'
    then some (c - b'a' + 10)
    else if leb b'A' c && leb c b'F'
    then some (c - b'A' + 10)
    else none

abbrev pub hex_pair : Option ℕ → Option ℕ → Option Bytes → Option Bytes
hex_pair (some a) (some b) (some rest) = some ((a * 16 + b) ∷ rest)
hex_pair _ _ _ = none

unfoldable pub hex_decode : Bytes → Option Bytes
hex_decode [] = some []
hex_decode (a ∷ []) = none
hex_decode (a ∷ b ∷ rest) = hex_pair (hex_digit a) (hex_digit b) (hex_decode rest)

-- PadWith9s; a text that is too long is cut, after strings.Repeat has panicked for a negative count.
unfoldable pub pad_with_9s : Bytes → ℕ → Option Bytes
pad_with_9s s desired_length =
    if ltb desired_length (length s)
    then none
    else some (take desired_length (s ++ replicate (desired_length - length s) b'9'))

-- `new_trytes` is iota.go's NewTrytes: the text, or `none` for one that it does not take for trytes.
module _ (new_trytes : Bytes → Option Bytes) where
  abbrev pub or_no_trytes : Option Bytes → Bytes
  or_no_trytes none = []
  or_no_trytes (some t) = t

  abbrev pub checked_trytes : Option Bytes → Option Bytes
  checked_trytes none = none
  checked_trytes (some t) = some (or_no_trytes (new_trytes t))

  -- BytesToTrytes: `none` would be a panic.
  unfoldable pub bytes_to_trytes : Bytes → Option Bytes
  unfolding runes_to_trytes
  bytes_to_trytes b = checked_trytes (runes_to_trytes b)

  -- ChunkMessageToTrytesWithStopper: a text of trytes stays as it is.
  abbrev pub with_stopper : Option Bytes → Converted
  with_stopper none = panicked
  with_stopper (some t) = elim (new_trytes (t ++ codes "A")) [
    | none ↦ refused
    | some u ↦ converted u
  ]

  unfoldable pub chunk_message_to_trytes_with_stopper : List ℕ → Converted
  unfolding runes_to_trytes
  chunk_message_to_trytes_with_stopper message = elim (new_trytes message) [
    | some t ↦ converted t
    | none ↦ with_stopper (runes_to_trytes message)
  ]

  -- MakeAddress
  abbrev pub to_81 : Option Bytes → Option Bytes
  to_81 none = none
  to_81 (some t) =
      if ltb 81 (length t)
      then some (take 81 t)
      else if ltb (length t) 81
      then pad_with_9s t 81
      else some t

  unfoldable pub make_address : Bytes → Option Bytes
  unfolding bytes_to_trytes hex_decode pad_with_9s
  make_address hash = elim (hex_decode hash) [ none ↦ some [] | some b ↦ to_81 (bytes_to_trytes b) ]

  -- `sha256` and `sha384` are HashHex with the two hashes.
  module _ (sha256 sha384 : Bytes → Bytes) where
    -- Sha256ToAddress
    unfoldable pub sha256_to_address : Bytes → Option Bytes
    unfolding make_address
    sha256_to_address hash = make_address (sha384 hash)

    -- The first loop of ComputeSectorDataMapAddress.
    unfoldable pub hash_times : ℕ → Bytes → Bytes
    hash_times zero hash = hash
    hash_times (suc n) hash = hash_times n (sha256 hash)

    -- The second loop.
    unfoldable pub address_loop : ℕ → Bytes → List (Option Bytes)
    unfolding sha256_to_address
    address_loop zero hash = []
    address_loop (suc n) hash = sha256_to_address hash ∷ address_loop n (sha256 hash)

    -- ComputeSectorDataMapAddress
    unfoldable pub compute_sector_data_map_address : Bytes → ℕ → ℕ → List (Option Bytes)
    unfolding hash_times address_loop
    compute_sector_data_map_address gen_hash sector_idx max_num_of_hashes =
        address_loop max_num_of_hashes
          (hash_times (sector_idx * file_sector_in_chunk_size) gen_hash)
