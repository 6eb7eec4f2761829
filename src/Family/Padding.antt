-- ===== src/Family/Padding.antt =====
-- Leading bits of an address in a cleared array of 16 bytes (eigrp/code/eigrp_ipv4.c, eigrp_ipv6.c).
use eigrp.Prelude.{
  ℕ, zero, suc, ◌-◌, ◌*◌, ◌≤◌, ◌≡◌, ◌∙◌, refl, ap, List, [], ◌∷◌, ◌++◌, length, take, replicate,
  All, arith,
}
use eigrp.Prefix.Laws.{IsByte, leading}
use eigrp.Prefix.Match.{leading-zero, high_bits_twice}

pub take-replicate : (n m : ℕ) → n ≤ m → take {A = ℕ} n (replicate m 0) ≡ replicate n 0
take-replicate zero m h = refl
take-replicate (suc n) zero h = absurd (omega arith)
take-replicate (suc n) (suc m) h = ap (λ (t : List ℕ). 0 ∷ t) (take-replicate n m (omega arith))

pub take_padded :
    (n m : ℕ) (bytes : List ℕ)
    → length bytes ≤ n
    → n ≤ m
    → take n (bytes ++ replicate m 0) ≡ bytes ++ replicate (n - length bytes) 0
take_padded n m [] h k = take-replicate n m k ∙ ap (λ (t : ℕ). replicate t 0) (omega arith)
take_padded zero m (b ∷ bytes) h k = absurd (omega arith)
take_padded (suc n) m (b ∷ bytes) h k =
    let left : suc n - suc (length bytes) ≡ n - length bytes = omega arith in
    rw left (ap (λ (t : List ℕ). b ∷ t) (take_padded n m bytes (omega arith) (omega arith)))

pub replicate-IsByte : (n : ℕ) → All IsByte (replicate n 0)
replicate-IsByte zero = tt
replicate-IsByte (suc n) = (omega arith, replicate-IsByte n)

pub length-replicate : (n : ℕ) → length {A = ℕ} (replicate n 0) ≡ n
length-replicate zero = omega arith
length-replicate (suc n) = omega (arith, length-replicate n)

pub All-append : (xs ys : List ℕ) → All IsByte xs → All IsByte ys → All IsByte (xs ++ ys)
All-append [] ys h k = k
All-append (x ∷ xs) ys (hx, hs) k = (hx, All-append xs ys hs k)

pub All-take : (n : ℕ) (xs : List ℕ) → All IsByte xs → All IsByte (take n xs)
All-take zero xs h = tt
All-take (suc n) [] h = tt
All-take (suc n) (x ∷ xs) (hx, hs) = (hx, All-take n xs hs)

-- The bytes that a destination carries, padded with zeros, have the leading bits that count.
pub leading-padded :
    (n k : ℕ) (bytes : List ℕ)
    → n ≤ 8 * k
    → All IsByte bytes
    → leading n (take k (leading n bytes) ++ replicate (length bytes - k) 0) ≡ leading n bytes
unfolding leading
leading-padded n zero [] h o = refl
leading-padded n (suc k) [] h o = let none_left : 0 - suc k ≡ 0 = omega arith in rw none_left refl
leading-padded n zero (b ∷ bytes) h (hb, hs) =
    let none_left : n ≡ 0 = omega arith in
    let size = suc (length bytes) - 0 in
    rw none_left (
      leading-zero (replicate size 0) (b ∷ bytes) (replicate-IsByte size) (hb, hs)
        (omega (arith, length-replicate size)))
leading-padded n (suc k) (b ∷ bytes) h (hb, hs) =
    let left : suc (length bytes) - suc k ≡ length bytes - k = omega arith in
    let low = leading-padded 0 k bytes (omega arith) hs in
    let high = leading-padded (n - 8) k bytes (omega arith) hs in
    rw left (ground (arith, high_bits_twice n b, low, high))
