-- ===== src/Family.antt =====
-- eigrp/code/eigrp_ipv4.c and eigrp_ipv6.c: addresses and prefixes on the wire. The functions of
-- the two files have the same text but for the values of the record `Family`.
mod Padding
pub mod Wire
pub mod Safe
use eigrp.Prelude.{
  ℕ, zero, suc, ◌+◌, ◌-◌, ◌/◌, Bool, true, false, not, ◌&&◌, ◌||◌, some, List, [], ◌∷◌, ◌++◌,
  if◌then◌else◌, ltb, leb, ◌==◌, take, replicate,
}
use eigrp.Stream.{
  Stream, M, pure, ◌>>=◌, ◌>>◌, Realloc, stream_get, stream_getc, stream_put, stream_putc,
  stream_set_getp,
}
use eigrp.Prefix.{Prefix, Address, prefix_normalize, afi_ipv4, afi_ipv6}

-- eigrp_addr_t: the family of the socket interface, and the union of the two address structures
pub record Addr : Type 0 where
  pub afi : ℕ
  pub ip : List ℕ  -- 16 bytes

pub record Family : Type 0 where
  pub socket_family : ℕ  -- AF_INET or AF_INET6
  pub afi : ℕ
  pub address_size : ℕ
  pub max_bitlen : ℕ
  pub prefix_bytes : ℕ → ℕ
  pub multiprotocol_afi : ℕ
  pub classic_internal_tlv_type : ℕ
  pub classic_external_tlv_type : ℕ

-- The bytes of an address that an IPv4 destination carries
unfoldable pub ipv4_prefix_bytes : ℕ → ℕ
ipv4_prefix_bytes prefix_length = if prefix_length == 0 then 0 else (prefix_length - 1) / 8 + 1

unfoldable pub ipv6_prefix_bytes : ℕ → ℕ
ipv6_prefix_bytes prefix_length =
    if prefix_length == 0 then 0 else if prefix_length == 128 then 16 else prefix_length / 8 + 1

abbrev pub ipv4 : Family
ipv4 = record {
  socket_family = 2;
  afi = afi_ipv4;
  address_size = 4;
  max_bitlen = 32;
  prefix_bytes = ipv4_prefix_bytes;
  multiprotocol_afi = 1;
  classic_internal_tlv_type = 258;
  classic_external_tlv_type = 259;
}

-- AF_INET6 as on Linux
abbrev pub ipv6 : Family
ipv6 = record {
  socket_family = 10;
  afi = afi_ipv6;
  address_size = 16;
  max_bitlen = 128;
  prefix_bytes = ipv6_prefix_bytes;
  multiprotocol_afi = 2;
  classic_internal_tlv_type = 1026;
  classic_external_tlv_type = 1027;
}

unfoldable pub stream_has : ℕ → M Bool
stream_has needed s =
    some (if leb s.endp s.getp then needed == 0 else leb needed (s.endp - s.getp), s)

-- Bytes copied to the front of a cleared array of 16
abbrev pub padded : List ℕ → List ℕ
padded bytes = take 16 (bytes ++ replicate 16 0)

module _ (f : Family) where
  unfoldable pub address_decode : Addr → M (ℕ × Addr)
  address_decode address = do
    has ← stream_has f.address_size
    if not has then pure (0, address) else do
      bytes ← stream_get f.address_size
      pure (f.address_size, record { afi = f.socket_family; ip = padded bytes })

  unfoldable pub address_encode : Realloc → Addr → M ℕ
  address_encode realloc address =
      if not (address.afi == 0) && not (address.afi == f.socket_family)
      then pure 0
      else do stream_put realloc (take f.address_size address.ip); pure f.address_size

  unfoldable pub prefix_decode : Prefix → M (ℕ × Prefix)
  prefix_decode prefix = do
    has ← stream_has 1
    if not has then pure (0, prefix) else do
      start ← λ s. some (s.getp, s)
      prefix_length ← stream_getc
      if ltb f.max_bitlen prefix_length then stream_set_getp start >> pure (0, prefix) else do
        let size = f.prefix_bytes prefix_length
        has ← stream_has size
        if not has then stream_set_getp start >> pure (0, prefix) else do
          bytes ← if size == 0 then pure [] else stream_get size
          pure (
            1 + size,
            prefix_normalize (record {
              address = record { afi = f.afi; bytes = padded bytes };
              prefix_length = prefix_length;
            }),
          )

  unfoldable pub prefix_encode : Realloc → Prefix → M ℕ
  prefix_encode realloc prefix =
      if not (prefix.address.afi == f.afi) || ltb f.max_bitlen prefix.prefix_length
      then pure 0
      else let normalized = prefix_normalize prefix in
        let size = f.prefix_bytes normalized.prefix_length in
        do
          stream_putc realloc normalized.prefix_length
          if size == 0 then pure 0 else stream_put realloc (take size normalized.address.bytes)
          pure (1 + size)
