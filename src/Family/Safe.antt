-- ===== src/Family/Safe.antt =====
-- The decoders of addresses and prefixes on any bytes (eigrp/code/eigrp_ipv4.c, eigrp_ipv6.c).
use eigrp.Prelude.{ℕ, refl, some, [], not, ◌+◌, arith, ltb, ◌==◌}
use eigrp.Prefix.{Prefix, prefix_normalize}
use eigrp.Family.{Family, Addr, padded, stream_has, address_decode, prefix_decode}
use eigrp.Stream.Reads.{
  Reads, pure-Reads, >>=-Reads, if-Reads, stream_get-Reads, stream_getc-Reads,
  stream_set_getp-Reads,
}

stream_has-Reads : (n : ℕ) → Reads (stream_has n)
unfolding Reads stream_has
stream_has-Reads n s w = (_, s, refl, ground arith)

getp-Reads : Reads (λ s. some (s.getp, s))
unfolding Reads
getp-Reads s w = (_, s, refl, ground arith)

module _ (f : Family) where
  pub address_decode-Reads : (old : Addr) → Reads (address_decode f old)
  unfolding address_decode
  address_decode-Reads old = >>=-Reads _ _ (stream_has-Reads f.address_size) λ has.
      if-Reads _ _ _ (pure-Reads _)
        (>>=-Reads _ _ (stream_get-Reads f.address_size) λ bytes. pure-Reads _)

  pub prefix_decode-Reads : (old : Prefix) → Reads (prefix_decode f old)
  unfolding prefix_decode
  prefix_decode-Reads old = >>=-Reads _ _ (stream_has-Reads 1) λ has.
      if-Reads _ _ _ (pure-Reads _) (
        >>=-Reads _ _ getp-Reads λ start. >>=-Reads _ _ stream_getc-Reads λ bits.
          if-Reads (ltb f.max_bitlen bits) _ _
            (>>=-Reads _ _ (stream_set_getp-Reads start) λ _. pure-Reads (0, old))
            (>>=-Reads _ _ (stream_has-Reads (f.prefix_bytes bits)) λ enough.
              if-Reads (not enough) _ _
                (>>=-Reads _ _ (stream_set_getp-Reads start) λ _. pure-Reads (0, old))
                (>>=-Reads _ _
                  (if-Reads (f.prefix_bytes bits == 0) _ _ (pure-Reads [])
                    (stream_get-Reads (f.prefix_bytes bits)))
                  λ bytes. pure-Reads (
                    1 + f.prefix_bytes bits,
                    prefix_normalize (record {
                      address = record { afi = f.afi; bytes = padded bytes };
                      prefix_length = bits;
                    }),
                  ))))
