-- ===== src/Utils/Trytes/RoundTrip.antt =====
-- utils/trytes_conversion.go: what is turned into trytes comes back.
use brokernode.Prelude.{
  ℕ, zero, suc, ◌+◌, ◌-◌, ◌*◌, ◌/◌, ◌%◌, ◌<◌, Bool, true, false, ◌⊎◌, some, List, [], ◌∷◌, ◌++◌,
  ◌==◌, if◌then◌else◌, length, replicate, All, ◌≡◌, ◌≢◌, refl, ap, ◌∙◌, arith, Option, ◌≤◌, All-map,
}
use brokernode.Prelude.Int.{pos, ◌+ℤ◌, ◌*ℤ◌, *ℤ-pos, +ℤ-pos}
use brokernode.Prelude.Bytes.{Bytes}
use brokernode.Utils.Trytes.{
  tryte_at, index_of, two_trytes, runes_to_trytes, trytes_to_ascii, in_front, trim_nines,
  ascii_to_trytes, trytes_to_ascii_trimmed, trytes_to_bytes, all_ascii, bytes_to_trytes, converted,
}

-- The tryte of a number below 27, and the trytes of a list of numbers below 729.
abbrev pub tryte : ℕ → ℕ
tryte v = if v == 0 then b'9' else b'A' + (v - 1)

abbrev pub encode : List ℕ → Bytes
encode [] = []
encode (c ∷ s) = tryte (c % 27) ∷ tryte (c / 27) ∷ encode s

tryte_at-tryte : (v : ℕ) → v < 27 → tryte_at v ≡ some (tryte v)
tryte_at-tryte v h = ground arith

index_of-tryte : (v : ℕ) → v < 27 → index_of (tryte v) ≡ pos v
index_of-tryte v h = ground arith

value_lem :
    (c : ℕ) → c < 729 → index_of (tryte (c % 27)) +ℤ index_of (tryte (c / 27)) *ℤ pos 27 ≡ pos c
value_lem c h =
    rw
      (
        index_of-tryte (c % 27) (omega arith),
        index_of-tryte (c / 27) (omega arith),
        *ℤ-pos (c / 27) 27,
        +ℤ-pos (c % 27) (c / 27 * 27),
      )
      (ap pos (omega arith))

pub runes_to_trytes-encode :
    (s : List ℕ) → All (λ c. c < 729) s → runes_to_trytes s ≡ some (encode s)
unfolding runes_to_trytes
runes_to_trytes-encode [] h = refl
runes_to_trytes-encode (c ∷ s) h =
    rw
      (
        runes_to_trytes-encode s h.1,
        two_trytes,
        tryte_at-tryte (c / 27) (omega (arith, h.0)),
        tryte_at-tryte (c % 27) (omega arith),
      )
      refl

trytes_to_ascii-encode : (s : List ℕ) → All (λ c. c < 729) s → trytes_to_ascii (encode s) ≡ some s
unfolding trytes_to_ascii
trytes_to_ascii-encode [] h = refl
trytes_to_ascii-encode (c ∷ s) h = rw (trytes_to_ascii-encode s h.1, value_lem c h.0) refl

-- The text without the nines, made even again.
abbrev pad_even : Bytes → Bytes
pad_even t = if length t % 2 == 0 then t else t ++ b'9' ∷ []

trim_nines-replicate : (k : ℕ) → trim_nines (replicate k b'9') ≡ []
unfolding trim_nines
trim_nines-replicate zero = refl
trim_nines-replicate (suc k) = ap (in_front b'9') (trim_nines-replicate k)

-- The last rune of a text is not the null character.
abbrev pub EndsNonzero : List ℕ → Type 0
EndsNonzero [] = Unit
EndsNonzero (c ∷ []) = c ≢ 0
EndsNonzero (c ∷ d ∷ s) = EndsNonzero (d ∷ s)

if_two :
    (b : Bool) (v u : ℕ) (t e : Bytes)
    → (if b then v ∷ u ∷ t else v ∷ u ∷ e) ≡ v ∷ u ∷ (if b then t else e)
if_two true v u t e = refl
if_two false v u t e = refl

even_add_two : (n : ℕ) → (suc (suc n) % 2 == 0) ≡ (n % 2 == 0)
even_add_two n = ground arith

pad_even-two : (v u x : ℕ) (t : Bytes) → pad_even (v ∷ u ∷ x ∷ t) ≡ v ∷ u ∷ pad_even (x ∷ t)
pad_even-two v u x t =
    ap (λ b. if b then v ∷ u ∷ x ∷ t else v ∷ u ∷ x ∷ (t ++ b'9' ∷ []))
      (even_add_two (suc (length t)))
    ∙ if_two (suc (length t) % 2 == 0) v u (x ∷ t) (x ∷ (t ++ b'9' ∷ []))

pad_even-in_front :
    (v u : ℕ) (t e : Bytes) (x : ℕ)
    → pad_even t ≡ x ∷ e
    → pad_even (in_front v (in_front u t)) ≡ v ∷ u ∷ x ∷ e
pad_even-in_front v u [] e x h = cc
pad_even-in_front v u (y ∷ t) e x h = pad_even-two v u y t ∙ ap (λ r. v ∷ u ∷ r) h

pad_even-last :
    (c : ℕ)
    → c < 729
    → c ≢ 0
    → pad_even (in_front (tryte (c % 27)) (in_front (tryte (c / 27)) [])) ≡ encode (c ∷ [])
pad_even-last c small nonzero = ground arith

pad_even-trim_nines :
    (s : List ℕ) (k : ℕ)
    → All (λ c. c < 729) s
    → EndsNonzero s
    → pad_even (trim_nines (encode s ++ replicate k b'9')) ≡ encode s
unfolding trim_nines
pad_even-trim_nines [] k h e = ap pad_even (trim_nines-replicate k)
pad_even-trim_nines (c ∷ []) k h e =
    ap (λ r. pad_even (in_front (tryte (c % 27)) (in_front (tryte (c / 27)) r)))
      (trim_nines-replicate k)
    ∙ pad_even-last c h.0 e
pad_even-trim_nines (c ∷ d ∷ s) k h e =
    pad_even-in_front (tryte (c % 27)) (tryte (c / 27)) _ _ _ (pad_even-trim_nines (d ∷ s) k h.1 e)

all_ascii-All : (s : List ℕ) → All (λ c. c ≤ 255) s → all_ascii s ≡ true
all_ascii-All [] h = refl
all_ascii-All (c ∷ s) h = let rest = all_ascii-All s h.1 in ground arith

ascii_to_trytes-encode :
    (s : List ℕ) → All (λ c. c ≤ 255) s → ascii_to_trytes s ≡ converted (encode s)
unfolding ascii_to_trytes
ascii_to_trytes-encode s h =
    rw (all_ascii-All s h, runes_to_trytes-encode s (All-map _ _ s (λ c b. omega arith) h)) refl

-- A text of runes up to 255 whose last rune is not the null character becomes trytes, and these,
-- with any number of 9s after them, are read back as the text.
pub trytes_to_ascii_trimmed-ascii_to_trytes :
    (s : List ℕ) (k : ℕ)
    → All (λ c. c ≤ 255) s
    → EndsNonzero s
    → (t : Bytes) × (ascii_to_trytes s ≡ converted t)
      × (trytes_to_ascii_trimmed (t ++ replicate k b'9') ≡ some s)
unfolding trytes_to_ascii_trimmed
trytes_to_ascii_trimmed-ascii_to_trytes s k h e =
    let small = All-map _ _ s (λ c b. omega arith) h in
    (
      encode s,
      ascii_to_trytes-encode s h,
      ap trytes_to_ascii (pad_even-trim_nines s k small e) ∙ trytes_to_ascii-encode s small,
    )

-- The trytes, as NewTrytes takes them.
abbrev pub IsTryte : ℕ → Type 0
IsTryte c = (c ≡ b'9') ⊎ (b'A' ≤ c × c ≤ b'Z')

tryte-IsTryte : (v : ℕ) → v < 27 → IsTryte (tryte v)
tryte-IsTryte v h = ground arith

pub encode-All-IsTryte : (s : List ℕ) → All (λ c. c < 729) s → All IsTryte (encode s)
encode-All-IsTryte [] h = tt
encode-All-IsTryte (c ∷ s) h = (
  tryte-IsTryte (c % 27) (omega arith),
  (tryte-IsTryte (c / 27) (omega (arith, h.0)), encode-All-IsTryte s h.1),
)

trytes_to_bytes-encode : (b : Bytes) → All (λ c. c < 256) b → trytes_to_bytes (encode b) ≡ some b
unfolding trytes_to_bytes
trytes_to_bytes-encode [] h = refl
trytes_to_bytes-encode (c ∷ b) h =
    rw (trytes_to_bytes-encode b h.1, value_lem c (omega (arith, h.0)))
      (ap (λ x. some (x ∷ b)) (omega (arith, h.0)))

module _ (new_trytes : Bytes → Option Bytes)
    (accepts : (x : ℕ) (t : Bytes) → All IsTryte (x ∷ t) → new_trytes (x ∷ t) ≡ some (x ∷ t)) where
  -- Bytes, at least one, become trytes, and these are read back as the bytes.
  pub trytes_to_bytes-bytes_to_trytes :
      (c : ℕ) (b : Bytes)
      → All (λ x. x < 256) (c ∷ b)
      → (t : Bytes) × (bytes_to_trytes new_trytes (c ∷ b) ≡ some t)
        × (trytes_to_bytes t ≡ some (c ∷ b))
  unfolding bytes_to_trytes
  trytes_to_bytes-bytes_to_trytes c b h =
      let small = All-map _ _ (c ∷ b) (λ x l. omega arith) h in
      (
        encode (c ∷ b),
        rw (runes_to_trytes-encode (c ∷ b) small, accepts _ _ (encode-All-IsTryte (c ∷ b) small))
            refl,
        trytes_to_bytes-encode (c ∷ b) h,
      )
