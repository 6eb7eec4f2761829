-- ===== src/Prefix.antt =====
-- eigrp/code/eigrp_prefix.c: addresses and prefixes of both families. A prefix is never NULL here.
pub mod Laws
pub mod Match
mod Tests
use Prim.Native.Nat.{bit_and}
use eigrp.Prelude.{
  ℕ, zero, suc, ◌+◌, ◌-◌, ◌*◌, ◌/◌, ◌%◌, ◌^◌, ◌≡◌, Bool, true, false, not, ◌&&◌, ◌||◌, List, [],
  ◌∷◌, ◌++◌, if◌then◌else◌, ltb, leb, ◌==◌, take, drop, replicate, u8,
}

-- eigrp_address_t; an `afi` that is neither 4 nor 6 stands for no address family.
pub record Address : Type 0 where
  pub afi : ℕ
  pub bytes : List ℕ  -- 16 bytes

pub record Prefix : Type 0 where
  pub address : Address
  pub prefix_length : ℕ  -- uint8

abbrev pub afi_ipv4 : ℕ
afi_ipv4 = 4

abbrev pub afi_ipv6 : ℕ
afi_ipv6 = 6

unfoldable pub address_bytes : ℕ → ℕ
address_bytes afi = if afi == afi_ipv4 then 4 else if afi == afi_ipv6 then 16 else 0

unfoldable pub prefix_valid : Prefix → Bool
prefix_valid p =
    if p.address.afi == afi_ipv4
    then leb p.prefix_length 32
    else if p.address.afi == afi_ipv6
    then leb p.prefix_length 128
    else false

-- The byte at a position, zero outside of the array, where no caller looks.
abbrev pub byte_at : ℕ → List ℕ → ℕ
byte_at at [] = 0
byte_at zero (b ∷ bytes) = b
byte_at (suc at) (b ∷ bytes) = byte_at at bytes

abbrev pub set_byte : ℕ → ℕ → List ℕ → List ℕ
set_byte at v [] = []
set_byte zero v (b ∷ bytes) = v ∷ bytes
set_byte (suc at) v (b ∷ bytes) = b ∷ set_byte at v bytes

-- `memset` of `count` bytes to zero
abbrev pub clear_bytes : ℕ → ℕ → List ℕ → List ℕ
clear_bytes zero zero bytes = bytes
clear_bytes at count [] = []
clear_bytes zero (suc count) (b ∷ bytes) = 0 ∷ clear_bytes zero count bytes
clear_bytes (suc at) count (b ∷ bytes) = b ∷ clear_bytes at count bytes

-- The bits of a byte that the last, partial byte of a prefix covers
unfoldable pub byte_mask : ℕ → ℕ
byte_mask remaining_bits = u8 (255 * 2 ^ (8 - remaining_bits))

-- The partial byte keeps the bits that `full` and `remaining` cover; the bytes after it, up to the
-- size of the address, are cleared.
unfoldable pub mask_bytes : ℕ → ℕ → ℕ → List ℕ → List ℕ
mask_bytes address_size full remaining bytes =
    let partial = not (remaining == 0) && ltb full address_size in
    let masked =
      if partial
      then set_byte full (bit_and (byte_at full bytes) (byte_mask remaining)) bytes
      else bytes in
    let rest = if partial then suc full else full in
    if ltb rest address_size then clear_bytes rest (address_size - rest) masked else masked

unfoldable pub normalize_bytes : ℕ → ℕ → List ℕ → List ℕ
normalize_bytes address_size prefix_length bytes =
    let masked = mask_bytes address_size (prefix_length / 8) (prefix_length % 8) bytes in
    if ltb address_size 16 then clear_bytes address_size (16 - address_size) masked else masked

unfoldable pub prefix_normalize : Prefix → Prefix
prefix_normalize p =
    if prefix_valid p
    then record p {
      address = record p.address {
        bytes = normalize_bytes (address_bytes p.address.afi) p.prefix_length p.address.bytes;
      };
    }
    else p

-- `memcmp` of the first `count` bytes against zero
unfoldable pub same_bytes : ℕ → List ℕ → List ℕ → Bool
same_bytes zero xs ys = true
same_bytes (suc count) [] ys = true
same_bytes (suc count) (x ∷ xs) [] = true
same_bytes (suc count) (x ∷ xs) (y ∷ ys) = x == y && same_bytes count xs ys

unfoldable pub match_bytes : ℕ → ℕ → ℕ → List ℕ → List ℕ → Bool
match_bytes address_size full remaining xs ys =
    let mask = byte_mask remaining in
    if not (full == 0) && not (same_bytes full xs ys)
    then false
    else if remaining == 0
    then true
    else if leb address_size full
    then false
    else bit_and (byte_at full xs) mask == bit_and (byte_at full ys) mask

unfoldable pub prefix_address_match : Prefix → Address → Bool
prefix_address_match p a =
    if not (prefix_valid p) || not (p.address.afi == a.afi)
    then false
    else match_bytes (address_bytes p.address.afi) (p.prefix_length / 8) (p.prefix_length % 8)
        p.address.bytes a.bytes
