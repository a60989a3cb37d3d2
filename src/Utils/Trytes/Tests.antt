-- ===== src/Utils/Trytes/Tests.antt =====
-- Small texts and their trytes, and the theorems at concrete inputs.
use brokernode.Utils.Trytes.RoundTrip.{IsTryte, trytes_to_ascii_trimmed-ascii_to_trytes}
use brokernode.Utils.Trytes.Addresses.{chunk_message_to_trytes_with_stopper-panics}
use brokernode.Utils.Trytes.{
  ascii_to_trytes, chunk_message_to_trytes_with_stopper, converted, hex_decode, pad_with_9s,
  panicked, runes_to_trytes, trytes_to_ascii, trytes_to_ascii_trimmed,
}
use brokernode.Prelude.Bytes.{Bytes, codes}
use brokernode.Prelude.{
  All, Bool, Option, [], arith, if◌then◌else◌, leb, none, refl, replicate, some, true, ℕ, ◌&&◌,
  ◌++◌, ◌==◌, ◌∷◌, ◌≡◌,
}
use brokernode.Prelude.Table.{here}

-- A NewTrytes: it takes a text that is not empty and has trytes only.
abbrev is_tryte : ℕ → Bool
is_tryte c = if c == b'9' then true else leb b'A' c && leb c b'Z'

abbrev all_trytes : Bytes → Bool
all_trytes [] = true
all_trytes (c ∷ t) = is_tryte c && all_trytes t

abbrev plain_new_trytes : Bytes → Option Bytes
plain_new_trytes [] = none
plain_new_trytes (c ∷ t) = if all_trytes (c ∷ t) then some (c ∷ t) else none

all_trytes-All : (t : Bytes) → All IsTryte t → all_trytes t ≡ true
all_trytes-All [] h = refl
all_trytes-All (c ∷ t) h = let rest = all_trytes-All t h.1 in let first = h.0 in ground arith

plain_new_trytes-accepts :
    (x : ℕ) (t : Bytes) → All IsTryte (x ∷ t) → plain_new_trytes (x ∷ t) ≡ some (x ∷ t)
plain_new_trytes-accepts x t h = rw (all_trytes-All (x ∷ t) h, plain_new_trytes) refl

-- Hash functions with hexadecimal hashes.
abbrev short_hash : Bytes → Bytes
short_hash hash = codes "00ff"

hello : ascii_to_trytes (codes "Hi") ≡ converted (codes "RBXC")
unfolding ascii_to_trytes runes_to_trytes
hello = refl

odd_text : trytes_to_ascii (codes "ABC") ≡ none
unfolding trytes_to_ascii
odd_text = refl

not_hex : hex_decode (codes "0g") ≡ none
unfolding hex_decode
not_hex = refl

too_long : pad_with_9s (codes "ABC") 2 ≡ none
unfolding pad_with_9s
too_long = refl

trytes_to_ascii_trimmed-ascii_to_trytes_example :
    (t : Bytes) × (ascii_to_trytes (codes "Hi") ≡ converted t)
    × (trytes_to_ascii_trimmed (t ++ replicate 5 b'9') ≡ some (codes "Hi"))
trytes_to_ascii_trimmed-ascii_to_trytes_example =
    trytes_to_ascii_trimmed-ascii_to_trytes (codes "Hi") 5 (omega arith, (omega arith, tt))
      (omega arith)

chunk_message_to_trytes_with_stopper-panics_example :
    chunk_message_to_trytes_with_stopper plain_new_trytes (0x1f600 ∷ []) ≡ panicked
chunk_message_to_trytes_with_stopper-panics_example =
    chunk_message_to_trytes_with_stopper-panics plain_new_trytes (0x1f600 ∷ []) refl
      (here (omega arith))

decoded : hex_decode (codes "00ff") ≡ some (0 ∷ 255 ∷ [])
unfolding hex_decode
decoded = refl
