-- ===== src/Pfxlimits/Penalty.antt =====
-- The decay of the penalty (eigrp_pfxlimits_penalty_decay in eigrp/code/eigrp_pfxlimits.c).
use eigrp.Prelude.{
  ℕ, zero, suc, ◌*◌, ◌/◌, ◌%◌, ◌≤◌, ◌≡◌, List, [], ◌∷◌, All, arith, ◌==◌, u32, u64, u32_max,
  div_mono, mul_mono, Bool-cases, inl, inr,
}
use eigrp.Pfxlimits.{penalty_decay, decay_bits, halved, factors}

-- A factor is at most one in 16 bits.
abbrev IsFactor : ℕ → Type 0
IsFactor f = f ≤ 65536

decayed_once :
    (f s : ℕ)
    → IsFactor f
    → s ≤ u32_max
    → (u32 (s * f / 65536) ≡ s * f / 65536) × (s * f / 65536 ≤ s)
decayed_once f s h k =
    let le : s * f ≤ s * 65536 = mul_mono s s f 65536 (omega arith) h in
    (omega (arith, le), omega (arith, le))

decayed_mono :
    (f s t : ℕ) → IsFactor f → s ≤ t → t ≤ u32_max → u32 (s * f / 65536) ≤ u32 (t * f / 65536)
decayed_mono f s t h le k = omega (
  arith,
  decayed_once f s h (omega arith),
  decayed_once f t h k,
  div_mono (s * f) (t * f) 65536 (omega arith) (mul_mono s t f f le (omega arith)),
)

decay_bits-le :
    (fs : List ℕ) (bit fraction s : ℕ)
    → All IsFactor fs
    → s ≤ u32_max
    → decay_bits fs bit fraction s ≤ s
unfolding decay_bits
decay_bits-le [] bit fraction s h k = omega arith
decay_bits-le (f ∷ fs) bit fraction s (hf, hs) k = elim (Bool-cases (fraction / bit % 2 == 0)) [
  | inl p ↦ rw p (decay_bits-le fs (bit / 2) fraction s hs k)
  | inr q ↦
      let once = decayed_once f s hf k in
      rw q (
        omega (
          arith,
          once,
          decay_bits-le fs (bit / 2) fraction (u32 (s * f / 65536)) hs (omega (arith, once)),
        ))
]

decay_bits_mono :
    (fs : List ℕ) (bit fraction s t : ℕ)
    → All IsFactor fs
    → s ≤ t
    → t ≤ u32_max
    → decay_bits fs bit fraction s ≤ decay_bits fs bit fraction t
unfolding decay_bits
decay_bits_mono [] bit fraction s t h le k = le
decay_bits_mono (f ∷ fs) bit fraction s t (hf, hs) le k =
    elim (Bool-cases (fraction / bit % 2 == 0)) [
      | inl p ↦ rw p (decay_bits_mono fs (bit / 2) fraction s t hs le k)
      | inr q ↦ rw q (
          decay_bits_mono fs (bit / 2) fraction (u32 (s * f / 65536)) (u32 (t * f / 65536)) hs
            (decayed_mono f s t hf le k) (omega arith))
    ]

halved-le : (n s : ℕ) → halved n s ≤ s
unfolding halved
halved-le zero s = omega arith
halved-le (suc n) s = omega (arith, halved-le n (s / 2))

halved_mono : (n s t : ℕ) → s ≤ t → halved n s ≤ halved n t
unfolding halved
halved_mono zero s t h = h
halved_mono (suc n) s t h = halved_mono n (s / 2) (t / 2) (omega arith)

factors-IsFactor : All IsFactor factors
factors-IsFactor = ground arith

-- Time never raises a penalty of 32 bits, and of two penalties the larger one is never the smaller
-- one after the same time.
pub penalty_decay_lem :
    (s t elapsed half_life : ℕ)
    → s ≤ t
    → t ≤ u32_max
    → (penalty_decay s elapsed half_life ≤ s)
      × (penalty_decay s elapsed half_life ≤ penalty_decay t elapsed half_life)
unfolding penalty_decay
penalty_decay_lem s t elapsed half_life le k =
    let fraction = u32 (u64 (elapsed % half_life * 256) / half_life) in
    let n = elapsed / half_life in
    let a = halved n s in
    let b = halved n t in
    let hb : b ≤ u32_max = omega (arith, halved-le n t) in
    let hm : a ≤ b = halved_mono n s t le in
    (
      ground (
        arith,
        halved-le n s,
        decay_bits-le factors 128 fraction a factors-IsFactor (omega (arith, hm, hb)),
      ),
      ground (
        arith,
        halved-le n s,
        decay_bits-le factors 128 fraction a factors-IsFactor (omega (arith, hm, hb)),
        decay_bits_mono factors 128 fraction a b factors-IsFactor hm hb,
      ),
    )
