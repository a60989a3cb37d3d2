-- ===== src/Utils/Keys/Decimal.antt =====
-- strconv's FormatInt and ParseInt in base ten, as they are documented, for int64.
use brokernode.Prelude.{
  All-map, All-append, Bool-cases, inl, inr, ltb→lt, ap, ◌∙◌, ℕ, zero, suc, ◌+◌, ◌-◌, ◌*◌, ◌/◌, ◌%◌,
  ◌^◌, ◌≤◌, ◌<◌, Option, none, some, [], ◌∷◌, ◌++◌, ◌==◌, ltb, leb, if◌then◌else◌, true, ◌&&◌, ◌≡◌,
  refl, arith, ◌≢◌, All,
}
use brokernode.Prelude.Int.{ℤ, pos, negsuc, ◌≤ℤ◌, ◌<ℤ◌}
use brokernode.Prelude.Bytes.{Bytes}

-- Twenty digits are enough for every number below 10^20, so for every int64.
digits : ℕ → ℕ → Bytes
digits zero n = []
digits (suc fuel) n =
    let more = digits fuel (n / 10) ++ (b'0' + n % 10) ∷ [] in
    if ltb n 10 then (b'0' + n) ∷ [] else more

pub format_nat : ℕ → Bytes
unfolding digits
format_nat n = digits 20 n

-- strconv.FormatInt(i, 10)
unfoldable pub format_int : ℤ → Bytes
unfolding format_nat
format_int (pos n) = format_nat n
format_int (negsuc n) = b'-' ∷ format_nat (suc n)

-- The value of a row of digits behind those that `acc` stands for; `none` is a syntax error.
value : ℕ → Bytes → Option ℕ
value acc [] = some acc
value acc (c ∷ s) =
    let next = value (acc * 10 + (c - b'0')) s in if leb b'0' c && leb c b'9' then next else none

-- A syntax error gives 0 and a number out of range the nearest int64.
unsigned : Bytes → Option ℕ
unfolding value
unsigned [] = none
unsigned (c ∷ s) = value 0 (c ∷ s)

positive : Option ℕ → ℤ
positive none = pos 0
positive (some n) = if ltb n (2 ^ 63) then pos n else pos (2 ^ 63 - 1)

negative : Option ℕ → ℤ
negative none = pos 0
negative (some zero) = pos 0
negative (some (suc n)) = if ltb n (2 ^ 63) then negsuc n else negsuc (2 ^ 63 - 1)

-- strconv.ParseInt(s, 10, 64), without its error.
unfoldable pub parse_int : Bytes → ℤ
unfolding unsigned positive negative value
parse_int [] = pos 0
parse_int (c ∷ s) =
    if c == b'-'
    then negative (unsigned s)
    else if c == b'+'
    then positive (unsigned s)
    else positive (unsigned (c ∷ s))

abbrev pow10 : ℕ → ℕ
pow10 zero = 1
pow10 (suc k) = 10 * pow10 k

value-append :
    (acc d : ℕ) (s : Bytes) (n : ℕ)
    → d < 10
    → value acc s ≡ some n
    → value acc (s ++ (b'0' + d) ∷ []) ≡ some (n * 10 + d)
unfolding value
value-append acc d [] n h e = ground arith
value-append acc d (c ∷ s) n h e = ground (arith, value-append (acc * 10 + (c - b'0')) d s n)

one_digit : (n : ℕ) → n < 10 → value 0 ((b'0' + n) ∷ []) ≡ some n
unfolding value
one_digit n h = ground arith

value-digits : (fuel n : ℕ) → n < pow10 (suc fuel) → value 0 (digits (suc fuel) n) ≡ some n
unfolding digits
value-digits zero n h =
    let small : ltb n 10 ≡ true = ground arith in rw small (one_digit n (omega arith))
value-digits (suc fuel) n h = elim (Bool-cases (ltb n 10)) [
  | inl small ↦ rw (small, digits) (one_digit n (ltb→lt n 10 small))
  | inr large ↦
      rw (large, digits)
        (value-append 0 (n % 10) (digits (suc fuel) (n / 10)) (n / 10) (omega arith)
            (value-digits fuel (n / 10) (omega arith))
          ∙ ap some (omega arith))
]

abbrev pub IsDigit : ℕ → Type 0
IsDigit c = (b'0' ≤ c) × (c ≤ b'9')

digits-IsDigit : (fuel n : ℕ) → All IsDigit (digits fuel n)
unfolding digits
digits-IsDigit zero n = tt
digits-IsDigit (suc fuel) n = elim (Bool-cases (ltb n 10)) [
  | inl small ↦ rw small (ground arith)
  | inr large ↦ rw large (
      All-append IsDigit (digits fuel (n / 10)) ((b'0' + n % 10) ∷ [])
        (digits-IsDigit fuel (n / 10)) (omega arith))
]

append-ne-nil : (s : Bytes) (c : ℕ) → s ++ c ∷ [] ≢ []
append-ne-nil [] c = λ e. cc
append-ne-nil (x ∷ s) c = λ e. cc

digits-ne-nil : (fuel n : ℕ) → digits (suc fuel) n ≢ []
unfolding digits
digits-ne-nil fuel n = elim (Bool-cases (ltb n 10)) [
  | inl small ↦ rw small (λ e. cc)
  | inr large ↦ rw large (append-ne-nil (digits fuel (n / 10)) (b'0' + n % 10))
]

unsigned_digits : (s : Bytes) (n : ℕ) → s ≢ [] → value 0 s ≡ some n → unsigned s ≡ some n
unfolding unsigned
unsigned_digits [] n ne e = absurd (ne refl)
unsigned_digits (c ∷ s) n ne e = e

parse_digits :
    (s : Bytes) (n : ℕ)
    → s ≢ []
    → All IsDigit s
    → value 0 s ≡ some n
    → parse_int s ≡ positive (some n)
unfolding parse_int
parse_digits [] n ne all e = absurd (ne refl)
parse_digits (c ∷ s) n ne all e = ground (arith, unsigned_digits (c ∷ s) n ne e)

pow10_20 : pow10 20 ≡ 10 ^ 20
pow10_20 = refl

unsigned-format_nat : (n : ℕ) → n < 10 ^ 20 → unsigned (format_nat n) ≡ some n
unfolding format_nat
unsigned-format_nat n h = unsigned_digits (digits 20 n) n (digits-ne-nil 19 n) (value-digits 19 n h)

-- Every int64 is read back from its decimal text.
pub parse_int-format_int :
    (i : ℤ) → negsuc (2 ^ 63 - 1) ≤ℤ i → i <ℤ pos (2 ^ 63) → parse_int (format_int i) ≡ i
unfolding format_int
parse_int-format_int (pos n) l u =
    parse_digits (digits 20 n) n (digits-ne-nil 19 n) (digits-IsDigit 20 n)
      (value-digits 19 n (omega arith))
    ∙ (unfold positive in ground arith)
parse_int-format_int (negsuc n) l u =
    unfold parse_int in rw (unsigned-format_nat (suc n) (omega arith)) (ground arith)

-- The decimal text has no delimiter of keys among its bytes.
pub format_int_bytes : (i : ℤ) → All (λ c. c ≢ b'_') (format_int i)
unfolding format_int format_nat
format_int_bytes (pos n) =
    All-map IsDigit (λ c. c ≢ b'_') (digits 20 n) (λ c h. omega arith) (digits-IsDigit 20 n)
format_int_bytes (negsuc n) = (
  omega arith,
  All-map IsDigit (λ c. c ≢ b'_') (digits 20 (suc n)) (λ c h. omega arith)
      (digits-IsDigit 20 (suc n)),
)
