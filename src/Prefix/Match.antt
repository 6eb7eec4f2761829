-- ===== src/Prefix/Match.antt =====
-- Normal forms and matches of prefixes (eigrp/code/eigrp_prefix.c).
use native.Mathlib.Nat.{mul-div_cancel, div-mul-le_self, one-le-pow}
use eigrp.Prelude.{
  ℕ, zero, suc, ◌-◌, ◌*◌, ◌/◌, ◌%◌, ◌^◌, ◌≤◌, ◌≡◌, ◌∙◌, ◌↔◌, refl, ap, true, ◌&&◌, List, [], ◌∷◌,
  leb, ◌==◌, length, All, arith, Bool-cases, if_false, inl, inr,
}
use eigrp.Prefix.{
  Prefix, Address, address_bytes, prefix_valid, prefix_normalize, same_bytes, match_bytes,
  prefix_address_match,
}
use eigrp.Prefix.Laws.{
  IsByte, IsPrefix, high_bits, leading, bit_and-byte_mask, with_bytes, prefix_normalize_lem,
  prefix_normalize_valid,
}

pub high_bits_twice : (n b : ℕ) → high_bits n (high_bits n b) ≡ high_bits n b
high_bits_twice n b =
    ap (λ (t : ℕ). t * 2 ^ (8 - n))
      (mul-div_cancel (b / 2 ^ (8 - n)) (one-le-pow (8 - n) 2 (omega arith)))

pub leading_twice : (n : ℕ) (bytes : List ℕ) → leading n (leading n bytes) ≡ leading n bytes
unfolding leading
leading_twice n [] = refl
leading_twice n (b ∷ bytes) =
    ground (arith, high_bits_twice n b, leading_twice (n - 8) bytes, leading_twice 0 bytes)

pub length-leading : (n : ℕ) (bytes : List ℕ) → length (leading n bytes) ≡ length bytes
unfolding leading
length-leading n [] = refl
length-leading n (b ∷ bytes) = ground (arith, length-leading (n - 8) bytes, length-leading 0 bytes)

pub leading-IsByte : (n : ℕ) (bytes : List ℕ) → All IsByte bytes → All IsByte (leading n bytes)
unfolding leading
leading-IsByte n [] h = tt
leading-IsByte n (b ∷ bytes) (hb, hs) = ground (
  arith,
  div-mul-le_self b (2 ^ (8 - n)),
  leading-IsByte (n - 8) bytes hs,
  leading-IsByte 0 bytes hs,
)

match_bytes-suc :
    (size full r x y : ℕ) (xs ys : List ℕ)
    → match_bytes (suc size) (suc full) r (x ∷ xs) (y ∷ ys)
      ≡ (x == y && match_bytes size full r xs ys)
unfolding match_bytes same_bytes
match_bytes-suc size full r x y xs ys = ground arith

pub leading-zero :
    (xs ys : List ℕ)
    → All IsByte xs
    → All IsByte ys
    → length xs ≡ length ys
    → leading 0 xs ≡ leading 0 ys
unfolding leading
leading-zero [] [] hx hy l = refl
leading-zero [] (y ∷ ys) hx hy l = absurd (omega arith)
leading-zero (x ∷ xs) [] hx hy l = absurd (omega arith)
leading-zero (x ∷ xs) (y ∷ ys) (hx, hxs) (hy, hys) l =
    ground (arith, leading-zero xs ys hxs hys (omega arith))

match_bytes_lem :
    (size n : ℕ) (xs ys : List ℕ)
    → n ≤ 8 * size
    → size ≤ length xs
    → length xs ≡ length ys
    → All IsByte xs
    → All IsByte ys
    → (match_bytes size (n / 8) (n % 8) xs ys ≡ true) ↔ (leading n xs ≡ leading n ys)
unfolding leading
match_bytes_lem size n [] [] fits le l hx hy = unfold match_bytes in ground arith
match_bytes_lem size n [] (y ∷ ys) fits le l hx hy = absurd (omega arith)
match_bytes_lem size n (x ∷ xs) [] fits le l hx hy = absurd (omega arith)
match_bytes_lem zero n (x ∷ xs) (y ∷ ys) fits le l (hx, hxs) (hy, hys) =
    unfold match_bytes in ground (arith, leading-zero xs ys hxs hys (omega arith))
match_bytes_lem (suc size) n (x ∷ xs) (y ∷ ys) fits le l (hx, hxs) (hy, hys) =
    let rest =
      match_bytes_lem size (n - 8) xs ys (omega arith) (omega arith) (omega arith) hxs hys in
    elim (Bool-cases (leb 8 n)) [
      | inr low ↦
          let none_full : n / 8 ≡ 0 = ground arith in
          let same_rest : n % 8 ≡ n = ground arith in
          rw (none_full, same_rest, low)
            (unfold match_bytes in
              ground (
                arith,
                bit_and-byte_mask n x,
                bit_and-byte_mask n y,
                leading-zero xs ys hxs hys (omega arith),
              ))
      | inl high ↦
          let full : n / 8 ≡ suc ((n - 8) / 8) = ground arith in
          let same_rest : n % 8 ≡ (n - 8) % 8 = ground arith in
          rw (full, same_rest, high, match_bytes-suc) (ground (arith, rest))
    ]

-- A valid prefix matches an address of its family exactly where both have the same leading bits,
-- as many as the length of the prefix; a prefix that is not valid, or an address of another
-- family, never matches.
pub prefix_address_match_iff :
    (p : Prefix) (a : Address)
    → IsPrefix p
    → length a.bytes ≡ 16
    → All IsByte a.bytes
    → (prefix_address_match p a ≡ true) ↔ (
        (prefix_valid p ≡ true)
        × (p.address.afi ≡ a.afi)
        × (leading p.prefix_length p.address.bytes ≡ leading p.prefix_length a.bytes))
unfolding prefix_address_match prefix_valid address_bytes
prefix_address_match_iff p a v l h = ground (
  arith,
  v,
  match_bytes_lem 4 p.prefix_length p.address.bytes a.bytes,
  match_bytes_lem 16 p.prefix_length p.address.bytes a.bytes,
)

-- A normal form is an array of 16 bytes again, it is its own normal form, and it matches an
-- address exactly where the prefix does.
pub prefix_normalize_twice :
    (p : Prefix) (a : Address)
    → IsPrefix p
    → length a.bytes ≡ 16
    → All IsByte a.bytes
    → IsPrefix (prefix_normalize p)
      × (prefix_normalize (prefix_normalize p) ≡ prefix_normalize p)
      × ((prefix_address_match (prefix_normalize p) a ≡ true) ↔ (prefix_address_match p a ≡ true))
unfolding prefix_valid
prefix_normalize_twice p a v l h = elim (Bool-cases (prefix_valid p)) [
  | inr bad ↦
      let same = prefix_normalize_lem p v ∙ if_false _ _ bad in
      rw (same, same) (v, refl, (λ x. x, λ x. x))
  | inl ok ↦
      let n = p.prefix_length in
      let bytes = leading n p.address.bytes in
      let q = with_bytes bytes p in
      let w : IsPrefix q = record {
        sixteen = omega (arith, v, length-leading n p.address.bytes);
        octets = leading-IsByte n p.address.bytes v.octets;
      } in
      let twice = leading_twice n p.address.bytes in
      rw (prefix_normalize_valid p v ok) (
        w,
        prefix_normalize_valid q w ok ∙ ap (λ (t : List ℕ). with_bytes t p) twice,
        ground
            (arith, prefix_address_match_iff q a w l h, prefix_address_match_iff p a v l h, twice),
      )
]
