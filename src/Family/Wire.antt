-- ===== src/Family/Wire.antt =====
-- Addresses and prefixes as bytes (eigrp/code/eigrp_ipv4.c, eigrp_ipv6.c): what the encoders append
-- and the decoders take.
use eigrp.Prelude.{
  ℕ, ◌+◌, ◌-◌, ◌*◌, ◌≤◌, ◌<◌, ◌≡◌, ◌∙◌, ◌⊎◌, ap, true, some, List, ◌∷◌, ◌++◌, rev_append, length,
  take, drop, replicate, arith, length-take, length-append, length-drop, drop-drop, u8,
}
use eigrp.Stream.{Realloc, size_max, stream_get}
use eigrp.Stream.Views.{
  reading, writing, stream_get-reading, stream_getc-reading, stream_put-writing,
  stream_putc-writing,
}
use eigrp.Prefix.{Prefix, prefix_valid, prefix_normalize}
use eigrp.Prefix.Laws.{IsPrefix, leading, prefix_normalize_valid}
use eigrp.Prefix.Match.{length-leading, leading-IsByte}
use eigrp.Family.{
  Addr, Family, stream_has, address_decode, address_encode, prefix_decode, prefix_encode, padded,
  ipv4, ipv6, ipv4_prefix_bytes, ipv6_prefix_bytes,
}
use eigrp.Family.Padding.{
  take_padded, replicate-IsByte, length-replicate, All-append, All-take, leading-padded,
}

-- What the codecs rely on: the family is one of the two, and a destination carries enough bytes
-- for its length.
pub record IsFamily (f : Family) : Type 0 where
  pub fits : f.address_size ≤ 16
  pub known : (f.afi ≡ 4) × (f.max_bitlen ≡ 32) ⊎ (f.afi ≡ 6) × (f.max_bitlen ≡ 128)
  pub enough : (n : ℕ) → n ≤ f.max_bitlen → n ≤ 8 * f.prefix_bytes n
  pub few : (n : ℕ) → n ≤ f.max_bitlen → f.prefix_bytes n ≤ f.address_size
  pub types : f.classic_internal_tlv_type < f.classic_external_tlv_type
  pub type_range : (2 < f.classic_internal_tlv_type) × (f.classic_external_tlv_type < 65536)

pub ipv4-IsFamily : IsFamily ipv4
unfolding ipv4_prefix_bytes
ipv4-IsFamily = record {
  fits = omega arith;
  known = ground arith;
  enough = λ n h. ground arith;
  few = λ n h. ground arith;
  types = omega arith;
  type_range = omega arith;
}

pub ipv6-IsFamily : IsFamily ipv6
unfolding ipv6_prefix_bytes
ipv6-IsFamily = record {
  fits = omega arith;
  known = ground arith;
  enough = λ n h. ground arith;
  few = λ n h. ground arith;
  types = omega arith;
  type_range = omega arith;
}

stream_has-reading :
    (n : ℕ) (past next unused : List ℕ)
    → n ≤ length next
    → stream_has n (reading past next unused) ≡ some (true, reading past next unused)
unfolding stream_has reading
stream_has-reading n past next unused h = ground arith

stream_get-reading_sized :
    {n : ℕ} {bytes : List ℕ}
    → length bytes ≡ n
    → (past next unused : List ℕ)
    → stream_get n (reading past (bytes ++ next) unused)
      ≡ some (bytes, reading (rev_append bytes past) next unused)
stream_get-reading_sized p past next unused = rw (← p) (stream_get-reading _ past next unused)

-- The address that the peer takes: its bytes in a cleared union, of the family of the instance.
abbrev pub received_addr : Family → Addr → Addr
received_addr f a = record { afi = f.socket_family; ip = padded (take f.address_size a.ip) }

module _ (f : Family) (codec : IsFamily f) where
  pub address_decode-reading :
      (old a : Addr) (past next unused : List ℕ)
      → length a.ip ≡ 16
      → address_decode f old (reading past (take f.address_size a.ip ++ next) unused)
        ≡ some (
          (f.address_size, received_addr f a),
          reading (rev_append (take f.address_size a.ip) past) next unused,
        )
  unfolding address_decode
  address_decode-reading old a past next unused l =
      let bytes = take f.address_size a.ip in
      let n : length bytes ≡ f.address_size =
        omega (arith, l, length-take f.address_size a.ip, codec.fits) in
      ground (
        arith,
        stream_has-reading f.address_size past (bytes ++ next) unused
            (omega (arith, n, length-append bytes next)),
        stream_get-reading_sized n past next unused,
      )

  -- The encoder takes an address of the family of the instance, or of none.
  pub address_encode-writing :
      (realloc : Realloc) (a : Addr) (room written : List ℕ) (getp : ℕ)
      → (a.afi ≡ 0) ⊎ (a.afi ≡ f.socket_family)
      → length a.ip ≡ 16
      → length written + length room ≤ size_max
      → 16 ≤ length room
      → address_encode f realloc a (writing getp written room)
        ≡ some (
          f.address_size,
          writing getp (rev_append (take f.address_size a.ip) written) (drop f.address_size room),
        )
  unfolding address_encode
  address_encode-writing realloc a room written getp family l fits h =
      let bytes = take f.address_size a.ip in
      let n : length bytes ≡ f.address_size =
        omega (arith, l, length-take f.address_size a.ip, codec.fits) in
      ground (
        arith,
        n,
        stream_put-writing realloc bytes room written getp fits (omega (arith, n, codec.fits)),
      )

-- The bytes of a destination: the length of the prefix, and the bytes of its normal form.
abbrev pub prefix_wire : Family → Prefix → List ℕ
prefix_wire f p =
    u8 p.prefix_length ∷ take (f.prefix_bytes p.prefix_length) (prefix_normalize p).address.bytes

-- A prefix of the family
pub record IsDest (f : Family) (p : Prefix) : Type 0 where
  pub well : IsPrefix p
  pub family : p.address.afi ≡ f.afi
  pub bits : p.prefix_length ≤ f.max_bitlen

module _ (f : Family) (codec : IsFamily f) (p : Prefix) (d : IsDest f p) where
  dest-valid : prefix_valid p ≡ true
  unfolding prefix_valid
  dest-valid = ground (arith, d, codec.known)

  abbrev sent : List ℕ
  sent = take (f.prefix_bytes p.prefix_length) (leading p.prefix_length p.address.bytes)

  length-sent : length sent ≡ f.prefix_bytes p.prefix_length
  length-sent = omega (
    arith,
    d.well.sixteen,
    codec.fits,
    codec.few p.prefix_length d.bits,
    length-leading p.prefix_length p.address.bytes,
    length-take (f.prefix_bytes p.prefix_length) (leading p.prefix_length p.address.bytes),
  )

  -- The normal form of the padded bytes is that of the prefix.
  received_dest :
      prefix_normalize (record {
        address = record { afi = f.afi; bytes = padded sent };
        prefix_length = p.prefix_length;
      })
      ≡ prefix_normalize p
  unfolding prefix_valid
  received_dest =
      let n = p.prefix_length in
      let bytes = leading n p.address.bytes in
      let few : length sent ≤ 16 = omega (arith, length-sent, codec.fits, codec.few n d.bits) in
      let zeros : List ℕ = replicate (16 - length sent) 0 in
      let a : padded sent ≡ sent ++ zeros = take_padded 16 16 sent few (omega arith) in
      let q : Prefix = record {
        address = record { afi = f.afi; bytes = sent ++ zeros };
        prefix_length = n;
      } in
      let w : IsPrefix q = record {
        sixteen = omega (arith, few, length-append sent zeros, length-replicate (16 - length sent));
        octets =
            All-append sent zeros
              (All-take (f.prefix_bytes n) bytes (leading-IsByte n p.address.bytes d.well.octets))
              (replicate-IsByte (16 - length sent));
      } in
      let b : leading n (sent ++ zeros) ≡ bytes =
        ap (λ (k : ℕ). leading n (sent ++ replicate k 0))
          (omega (arith, length-sent, d.well.sixteen))
        ∙ leading-padded n (f.prefix_bytes n) p.address.bytes (codec.enough n d.bits)
            d.well.octets in
      let valid : prefix_valid q ≡ true = ground (arith, d.bits, codec.known) in
      rw a (
        prefix_normalize_valid q w valid
        ∙ ground (arith, b, d.family, prefix_normalize_valid p d.well dest-valid))

  pub prefix_decode-reading :
      (old : Prefix) (past next unused : List ℕ)
      → prefix_decode f old (reading past (prefix_wire f p ++ next) unused)
        ≡ some (
          (1 + f.prefix_bytes p.prefix_length, prefix_normalize p),
          reading (rev_append (prefix_wire f p) past) next unused,
        )
  unfolding prefix_decode
  prefix_decode-reading old past next unused =
      let n = p.prefix_length in
      rw (prefix_normalize_valid p d.well dest-valid) (
        ground (
          arith,
          d,
          codec.known,
          stream_has-reading 1 past (u8 n ∷ sent ++ next) unused (omega arith),
          stream_getc-reading (u8 n) past (sent ++ next) unused,
          stream_has-reading (f.prefix_bytes n) (u8 n ∷ past) (sent ++ next) unused
              (omega (arith, length-sent, length-append sent next)),
          stream_get-reading_sized length-sent (u8 n ∷ past) next unused,
          length-sent,
          received_dest,
          prefix_normalize_valid p d.well dest-valid,
        ))

  pub prefix_encode-writing :
      (realloc : Realloc) (room written : List ℕ) (getp : ℕ)
      → length written + length room ≤ size_max
      → 17 ≤ length room
      → prefix_encode f realloc p (writing getp written room)
        ≡ some (
          1 + f.prefix_bytes p.prefix_length,
          writing getp
              (rev_append (prefix_wire f p) written)
              (drop (1 + f.prefix_bytes p.prefix_length) room),
        )
  unfolding prefix_encode
  prefix_encode-writing realloc room written getp fits h =
      let n = p.prefix_length in
      rw (prefix_normalize_valid p d.well dest-valid) (
        ground (
          arith,
          d,
          stream_putc-writing realloc n room written getp fits (omega arith),
          stream_put-writing realloc sent (drop 1 room) (u8 n ∷ written) getp
              (omega (arith, length-drop 1 room))
              (omega (arith, length-drop 1 room, length-sent, codec.few n d.bits, codec.fits)),
          length-sent,
          drop-drop 1 (length sent) room,
        ))

  pub length-prefix_wire : length (prefix_wire f p) ≡ 1 + f.prefix_bytes p.prefix_length
  length-prefix_wire = rw (prefix_normalize_valid p d.well dest-valid) (omega (arith, length-sent))
