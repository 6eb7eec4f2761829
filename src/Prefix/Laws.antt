-- ===== src/Prefix/Laws.antt =====
-- What normalisation and matching do with the bits of an address (eigrp/code/eigrp_prefix.c).
use Prim.Native.Nat.{bit_and}
use eigrp.Prelude.{
  ℕ, zero, suc, ◌-◌, ◌*◌, ◌/◌, ◌%◌, ◌^◌, ◌≤◌, ◌<◌, ◌≡◌, refl, ap, ◌∙◌, if_true, Bool, true, false,
  List, [], ◌∷◌, if◌then◌else◌, leb, ◌==◌, ==_iff, length, All, arith, Bool-cases, inl, inr,
}
use eigrp.Prefix.{
  Prefix, address_bytes, prefix_valid, clear_bytes, byte_mask, mask_bytes, normalize_bytes,
  prefix_normalize,
}

abbrev pub IsByte : ℕ → Type 0
IsByte b = b < 256

-- The first `n` bits of a byte, the rest zero
abbrev pub high_bits : ℕ → ℕ → ℕ
high_bits n b = b / 2 ^ (8 - n) * 2 ^ (8 - n)

-- The first `n` bits of an address, the rest zero
unfoldable pub leading : ℕ → List ℕ → List ℕ
leading n [] = []
leading n (b ∷ bytes) =
    if leb 8 n then b ∷ leading (n - 8) bytes else high_bits n b ∷ leading 0 bytes

-- The masks are compared with the bits that they keep on every byte.
agrees : (ℕ → ℕ) → (ℕ → ℕ) → ℕ → Bool
agrees f g zero = true
agrees f g (suc k) = if f k == g k then agrees f g k else false

agrees_at : (f g : ℕ → ℕ) (k b : ℕ) → agrees f g k ≡ true → b < k → f b ≡ g b
unfolding agrees
agrees_at f g zero b same lt = absurd (omega arith)
agrees_at f g (suc k) b same lt = elim (Bool-cases (f k == g k)) [
  | inl here ↦ ground (arith, (==_iff (f k) (g k)).0 here, agrees_at f g k b)
  | inr apart ↦ ground (arith, apart)
]

masks_agree : ℕ → Bool
masks_agree zero = true
masks_agree (suc r) =
    if agrees (λ b. bit_and b (byte_mask r)) (high_bits r) 256 then masks_agree r else false

masks_agree_at :
    (k r : ℕ)
    → masks_agree k ≡ true
    → r < k
    → agrees (λ b. bit_and b (byte_mask r)) (high_bits r) 256 ≡ true
unfolding masks_agree
masks_agree_at zero r same lt = absurd (omega arith)
masks_agree_at (suc k) r same lt = ground (arith, masks_agree_at k r)

eight_masks : masks_agree 8 ≡ true
unfolding masks_agree agrees byte_mask
eight_masks = refl

pub bit_and-byte_mask : (r b : ℕ) → r < 8 → IsByte b → bit_and b (byte_mask r) ≡ high_bits r b
bit_and-byte_mask r b few byte =
    agrees_at (λ b. bit_and b (byte_mask r)) (high_bits r) 256 b
      (masks_agree_at 8 r eight_masks few) byte

mask_bytes-suc :
    (size full r b : ℕ) (bytes : List ℕ)
    → mask_bytes (suc size) (suc full) r (b ∷ bytes) ≡ b ∷ mask_bytes size full r bytes
unfolding mask_bytes
mask_bytes-suc size full r b bytes = ground arith

clear_bytes_none : (at : ℕ) (bytes : List ℕ) → clear_bytes at 0 bytes ≡ bytes
clear_bytes_none zero [] = refl
clear_bytes_none zero (b ∷ bytes) = refl
clear_bytes_none (suc at) [] = refl
clear_bytes_none (suc at) (b ∷ bytes) = ap (λ (t : List ℕ). b ∷ t) (clear_bytes_none at bytes)

-- Zeros from the first byte on, in two steps
clear_bytes_both :
    (size : ℕ) (bytes : List ℕ)
    → All IsByte bytes
    → size ≤ length bytes
    → clear_bytes size (length bytes - size) (clear_bytes 0 size bytes) ≡ leading 0 bytes
unfolding leading
clear_bytes_both zero [] h le = refl
clear_bytes_both (suc size) [] h le = absurd (omega arith)
clear_bytes_both zero (b ∷ bytes) (hb, hs) le =
    ground (arith, clear_bytes_both zero bytes hs (omega arith), clear_bytes_none zero bytes)
clear_bytes_both (suc size) (b ∷ bytes) (hb, hs) le =
    ground (arith, clear_bytes_both size bytes hs (omega arith))

mask_bytes-partial :
    (size n b : ℕ) (bytes : List ℕ)
    → n < 8
    → n ≤ 8 * size
    → IsByte b
    → All IsByte bytes
    → size ≤ suc (length bytes)
    → clear_bytes size (suc (length bytes) - size) (mask_bytes size 0 n (b ∷ bytes))
      ≡ high_bits n b ∷ leading 0 bytes
unfolding mask_bytes
mask_bytes-partial zero n b bytes lt fits hb hs le =
    ground (arith, clear_bytes_both zero bytes hs (omega arith), clear_bytes_none zero bytes)
mask_bytes-partial (suc size) n b bytes lt fits hb hs le = ground (
  arith,
  bit_and-byte_mask n b lt hb,
  clear_bytes_both size bytes hs (omega arith),
  clear_bytes_none zero bytes,
)

mask_bytes_lem :
    (size n : ℕ) (bytes : List ℕ)
    → n ≤ 8 * size
    → All IsByte bytes
    → size ≤ length bytes
    → clear_bytes size (length bytes - size) (mask_bytes size (n / 8) (n % 8) bytes)
      ≡ leading n bytes
unfolding leading
mask_bytes_lem size n [] fits h le = unfold mask_bytes in ground arith
mask_bytes_lem zero n (b ∷ bytes) fits (hb, hs) le =
    let none_full : n / 8 ≡ 0 = omega arith in
    let rest : n % 8 ≡ n = omega arith in
    let few : leb 8 n ≡ false = ground arith in
    rw (none_full, rest, few) (mask_bytes-partial 0 n b bytes (omega arith) fits hb hs le)
mask_bytes_lem (suc size) n (b ∷ bytes) fits (hb, hs) le =
    let rest = mask_bytes_lem size (n - 8) bytes (omega arith) hs (omega arith) in
    elim (Bool-cases (leb 8 n)) [
      | inr low ↦
          let none_full : n / 8 ≡ 0 = ground arith in
          let same_rest : n % 8 ≡ n = ground arith in
          rw (none_full, same_rest, low)
            (mask_bytes-partial (suc size) n b bytes (ground arith) fits hb hs le)
      | inl high ↦
          let full : n / 8 ≡ suc ((n - 8) / 8) = ground arith in
          let same_rest : n % 8 ≡ (n - 8) % 8 = ground arith in
          let left : suc (length bytes) - suc size ≡ length bytes - size = omega arith in
          rw (full, same_rest, high, mask_bytes-suc, left) (ap (λ (t : List ℕ). b ∷ t) rest)
    ]

-- Normalisation keeps the leading bits that the prefix covers.
pub normalize_bytes_lem :
    (size n : ℕ) (bytes : List ℕ)
    → n ≤ 8 * size
    → size ≤ 16
    → All IsByte bytes
    → length bytes ≡ 16
    → normalize_bytes size n bytes ≡ leading n bytes
unfolding normalize_bytes
normalize_bytes_lem size n bytes fits le h l = ground (
  arith,
  mask_bytes_lem size n bytes fits h (omega arith),
  clear_bytes_none size (mask_bytes size (n / 8) (n % 8) bytes),
)

-- The address of a prefix is an array of 16 bytes.
pub record IsPrefix (p : Prefix) : Type 0 where
  pub sixteen : length p.address.bytes ≡ 16
  pub octets : All IsByte p.address.bytes

abbrev pub with_bytes : List ℕ → Prefix → Prefix
with_bytes bytes p = record p { address = record p.address { bytes = bytes } }

-- The normal form of a valid prefix has the leading bits of the address that its length counts,
-- and zeros after them; a prefix that is not valid stays as it is.
pub prefix_normalize_lem :
    (p : Prefix)
    → IsPrefix p
    → prefix_normalize p
      ≡ (if prefix_valid p then with_bytes (leading p.prefix_length p.address.bytes) p else p)
unfolding prefix_normalize prefix_valid address_bytes
prefix_normalize_lem p v = ground (
  arith,
  v,
  normalize_bytes_lem 4 p.prefix_length p.address.bytes,
  normalize_bytes_lem 16 p.prefix_length p.address.bytes,
)

pub prefix_normalize_valid :
    (p : Prefix)
    → IsPrefix p
    → prefix_valid p ≡ true
    → prefix_normalize p ≡ with_bytes (leading p.prefix_length p.address.bytes) p
prefix_normalize_valid p v ok = prefix_normalize_lem p v ∙ if_true _ _ ok
