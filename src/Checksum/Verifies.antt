-- ===== src/Checksum/Verifies.antt =====
-- A packet with its checksum filled in verifies (eigrp/code/eigrp_checksum.c).
use eigrp.Prelude.{
  ℕ, zero, suc, ◌+◌, ◌-◌, ◌*◌, ◌/◌, ◌%◌, ◌≤◌, ◌<◌, ◌≡◌, refl, List, [], ◌∷◌, ◌++◌, length,
  length-append, All, arith, if◌then◌else◌, ◌==◌, u16, u32,
}
use eigrp.Checksum.{sum_words, fold_carries, checksum}

abbrev pub IsByte : ℕ → Type 0
IsByte b = b < 256

-- The sum of the words without a bound
unfoldable pub words : List ℕ → ℕ
words [] = 0
words (a ∷ []) = a * 256
words (a ∷ b ∷ bytes) = a * 256 + b + words bytes

words-le : (bytes : List ℕ) → All IsByte bytes → words bytes ≤ 65535 * length bytes
unfolding words
words-le [] h = omega arith
words-le (a ∷ []) h = ground (arith, h)
words-le (a ∷ b ∷ bytes) (ha, (hb, hs)) = omega (arith, ha, hb, words-le bytes hs)

sum_words_lem :
    (sum : ℕ) (bytes : List ℕ)
    → All IsByte bytes
    → sum + words bytes < 4294967296
    → sum_words sum bytes ≡ sum + words bytes
unfolding sum_words words
sum_words_lem sum [] h lt = omega arith
sum_words_lem sum (a ∷ []) h lt = ground (arith, h, lt)
sum_words_lem sum (a ∷ b ∷ bytes) (ha, (hb, hs)) lt =
    let narrow : u32 (sum + (u16 a * 256 + b)) ≡ sum + (a * 256 + b) = omega (arith, ha, hb, lt) in
    rw narrow (omega (arith, sum_words_lem (sum + (a * 256 + b)) bytes hs (omega (arith, lt))))

round_lem :
    (n sum : ℕ)
    → fold_carries (suc n) sum
      ≡ (if sum / 65536 == 0 then sum else fold_carries n (u32 (sum % 65536 + sum / 65536)))
unfolding fold_carries
round_lem n sum = refl

fold_small : (n sum : ℕ) → sum < 65536 → fold_carries n sum ≡ sum
unfolding fold_carries
fold_small zero sum lt = refl
fold_small (suc n) sum lt = ground (arith, lt)

fold_once : (n sum : ℕ) → sum ≤ 131070 → 0 < sum → fold_carries (suc n) sum ≡ (sum - 1) % 65535 + 1
fold_once n sum le pos =
    ground (arith, round_lem n sum, fold_small n (u32 (sum % 65536 + sum / 65536)))

-- Two rounds fold every sum of 32 bits, and more make no difference: a sum that is not zero
-- becomes the number from 1 to 65535 with the same remainder.
fold_carries_lem :
    (n sum : ℕ)
    → sum < 4294967296
    → 0 < sum
    → fold_carries (suc (suc n)) sum ≡ (sum - 1) % 65535 + 1
fold_carries_lem n sum lt pos =
    ground (arith, round_lem (suc n) sum, fold_once n (u32 (sum % 65536 + sum / 65536)))

checksum_lem :
    (bytes : List ℕ)
    → All IsByte bytes
    → length bytes ≤ 65535
    → 0 < words bytes
    → checksum bytes ≡ 65535 - ((words bytes - 1) % 65535 + 1)
unfolding checksum
checksum_lem bytes h le pos =
    let small = words-le bytes h in
    let sum : sum_words 0 bytes ≡ words bytes =
      omega (arith, sum_words_lem 0 bytes h (omega (arith, small))) in
    rw sum (omega (arith, fold_carries_lem 0 (words bytes) (omega (arith, small)) pos))

-- A list of whole words
abbrev pub IsEven : List ℕ → Type 0
IsEven [] = Unit
IsEven (a ∷ []) = ⊥
IsEven (a ∷ b ∷ bytes) = IsEven bytes

-- The field that holds the checksum adds its value to the sum.
words-field :
    (front back : List ℕ) (high low : ℕ)
    → IsEven front
    → words (front ++ (high ∷ low ∷ back)) ≡ words (front ++ (0 ∷ 0 ∷ back)) + (high * 256 + low)
unfolding words
words-field [] back high low e = omega arith
words-field (a ∷ []) back high low e = elim e [ ]
words-field (a ∷ b ∷ front) back high low e = omega (arith, words-field front back high low e)

All-field :
    (front back : List ℕ) (high low : ℕ)
    → IsByte high
    → IsByte low
    → All IsByte (front ++ (0 ∷ 0 ∷ back))
    → All IsByte (front ++ (high ∷ low ∷ back))
All-field [] back high low p q (h, (k, r)) = (p, (q, r))
All-field (a ∷ front) back high low p q (h, r) = (h, All-field front back high low p q r)

-- A packet of at most 65535 bytes, not all zero, whose checksum was computed while its field, which
-- stands at an even position, was zero, and was then stored there in network order, has the
-- checksum zero.
pub checksum_verifies :
    (front back : List ℕ)
    → let zeroed = front ++ (0 ∷ 0 ∷ back) in
      let c = checksum zeroed in
      IsEven front
      → All IsByte zeroed
      → length zeroed ≤ 65535
      → 0 < words zeroed
      → checksum (front ++ (c / 256 ∷ c % 256 ∷ back)) ≡ 0
checksum_verifies front back e h le pos =
    let zeroed = front ++ (0 ∷ 0 ∷ back) in
    let c = checksum zeroed in
    let filled = front ++ (c / 256 ∷ c % 256 ∷ back) in
    let first = checksum_lem zeroed h le pos in
    let w = words-field front back (c / 256) (c % 256) e in
    let b : All IsByte filled =
      All-field front back (c / 256) (c % 256) (omega (arith, first)) (omega arith) h in
    let l : length filled ≡ length zeroed =
      omega (
        arith,
        length-append front (0 ∷ 0 ∷ back),
        length-append front (c / 256 ∷ c % 256 ∷ back),
      ) in
    omega (arith, first, w, checksum_lem filled b (omega (arith, l, le)) (omega (arith, w, pos)))
