-- ===== src/Tlv1/Safe.antt =====
-- The decoder of classic TLVs on any packet (eigrp/code/eigrp_tlv1.c, eigrp_ipv4.c, eigrp_ipv6.c).
use eigrp.Prelude.{
  ℕ, ◌+◌, ◌-◌, ◌≤◌, ◌≡◌, ◌⊎◌, inl, inr, refl, Bool, true, not, ◌&&◌, ◌||◌, some, none, Option,
  if◌then◌else◌, arith, leb, ltb, ◌==◌, Bool-cases, u16,
}
use eigrp.Types.{Metrics}
use eigrp.Family.{Family}
use eigrp.Stream.{
  Stream, M, pure, ◌>>=◌, ◌>>◌, Realloc, stream_set_getp, stream_set_endp, stream_ensure,
}
use eigrp.Family.Wire.{IsFamily}
use eigrp.Family.Safe.{address_decode-Reads, prefix_decode-Reads}
use eigrp.Stream.Bounds.{IsWell}
use eigrp.Stream.Reads.{
  Same, Reads, pure-Reads, >>=-Reads, if-Reads, stream_getc-Reads, stream_getw-Reads,
  stream_getl-Reads,
}
use eigrp.Tlv1.{
  decode_tlv, zero_route, create_route, get_endp, get_getp, decoder, decode_abort, decode_skip,
  tlv_kind, min_length, RouteTlv, ExtData, stream_has, stream_remaining, external_decode,
  metric_decode, decode_parts,
}

pub stream_has-Reads : (n : ℕ) → Reads (stream_has n)
unfolding Reads stream_has stream_remaining
stream_has-Reads n s w = (_, s, refl, ground arith)

metric_decode-Reads : (old : Metrics) → Reads (metric_decode old)
unfolding metric_decode
metric_decode-Reads old = >>=-Reads _ _ (stream_has-Reads 16) λ has. if-Reads _ _ _ (pure-Reads _) (
    >>=-Reads _ _ stream_getl-Reads λ delay. >>=-Reads _ _ stream_getl-Reads λ bandwidth.
      >>=-Reads _ _ stream_getc-Reads λ mtu2. >>=-Reads _ _ stream_getc-Reads λ mtu1.
        >>=-Reads _ _ stream_getc-Reads λ mtu0. >>=-Reads _ _ stream_getc-Reads λ hop_count.
          >>=-Reads _ _ stream_getc-Reads λ reliability. >>=-Reads _ _ stream_getc-Reads λ load.
            >>=-Reads _ _ stream_getc-Reads
              λ tag. >>=-Reads _ _ stream_getc-Reads λ flags. pure-Reads _)

external_decode-Reads : (old : ExtData) → Reads (external_decode old)
unfolding external_decode
external_decode-Reads old = >>=-Reads _ _ (stream_has-Reads 20) λ has.
    if-Reads _ _ _ (pure-Reads _) (
      >>=-Reads _ _ stream_getl-Reads λ orig. >>=-Reads _ _ stream_getl-Reads λ as_number.
        >>=-Reads _ _ stream_getl-Reads λ tag. >>=-Reads _ _ stream_getl-Reads λ metric.
          >>=-Reads _ _ stream_getw-Reads λ reserved.
            >>=-Reads _ _ stream_getc-Reads
              λ protocol. >>=-Reads _ _ stream_getc-Reads λ flags. pure-Reads _)

decode_parts-Reads :
    (f : Family) (external : Bool) (size : ℕ) (old : RouteTlv)
    → Reads (decode_parts f external size old)
unfolding decode_parts
decode_parts-Reads f external size old =
    >>=-Reads _ _ (address_decode-Reads f old.nexthop) λ address.
      if-Reads (not (address.0 == f.address_size)) _ _ (pure-Reads none) (
        >>=-Reads _ _
          (if-Reads external _ _ (external_decode-Reads old.extdata) (pure-Reads (0, old.extdata)))
          λ extdata. if-Reads (external && extdata.0 == 0) _ _ (pure-Reads none) (
            >>=-Reads _ _ (metric_decode-Reads old.metric) λ metric.
              if-Reads (metric.0 == 0) _ _ (pure-Reads none) (
                >>=-Reads _ _ (prefix_decode-Reads f old.dest) λ dest.
                  let bytes = u16 (4 + address.0 + extdata.0 + metric.0 + dest.0) in
                  if-Reads (dest.0 == 0 || (ltb size bytes || bytes == 4)) _ _ (pure-Reads none) (
                    pure-Reads (
                      some (record old {
                        nexthop = address.1;
                        extdata = extdata.1;
                        metric = metric.1;
                        dest = dest.1;
                      }))))))

-- The end can be moved anywhere up to the size, without asking for memory.
pub set_endp_within :
    (realloc : Realloc) (at : ℕ) (s : Stream)
    → at ≤ s.size
    → stream_set_endp realloc at s
      ≡ some (tt, record s { endp = at; getp = if ltb at s.getp then at else s.getp })
unfolding stream_set_endp stream_ensure
set_endp_within realloc at s h = ground arith

pub abort_lem : (s : Stream) → decode_abort s ≡ some (tt, record s { getp = s.endp })
unfolding decode_abort stream_set_getp
abort_lem s = ground arith

pub skip_lem :
    (at : ℕ) (s : Stream) → at ≤ s.endp → decode_skip at s ≡ some (tt, record s { getp = at })
unfolding decode_skip stream_set_getp
skip_lem at s h = ground arith

close :
    (o : Option RouteTlv) (at : ℕ) (s : Stream)
    → at ≤ s.endp
    → (p : ℕ) × ((p ≡ s.endp) ⊎ (p ≡ at))
      × ((elim o as (λ _. M (Option RouteTlv)) [
        | none ↦ decode_abort >> pure none
        | some route ↦ decode_skip at >> pure (some route)
      ])
            s
          ≡ some (o, record s { getp = p }))
close none at s h = (s.endp, inl refl, rw (◌>>◌, ◌>>=◌, abort_lem s) refl)
close (some route) at s h = (at, inr refl, rw (◌>>◌, ◌>>=◌, skip_lem at s h) refl)

-- What a decoder leaves: the bytes and the end of the packet, and a position that is the end or
-- the given one.
record Stops (s t : Stream) (at : ℕ) : Type 0 where
  same : Same s t
  stop : (t.getp ≡ s.endp) ⊎ (t.getp ≡ at)

decode_tlv-Stops :
    (f : Family) (realloc : Realloc) (external : Bool) (type size at : ℕ) (s : Stream)
    → IsWell s
    → at ≤ s.endp
    → (o : Option RouteTlv) × (t : Stream) × (decode_tlv f true realloc external type size at s
        ≡ some (o, t))
      × Stops s t at
unfolding decode_tlv create_route get_endp Reads
decode_tlv-Stops f realloc external type size at s w h =
    let u : Stream = record s { endp = at; getp = if ltb at s.getp then at else s.getp } in
    let wu : IsWell u = ground (arith, w) in
    let (o, v, p, x) =
      decode_parts-Reads f external size (record zero_route { tlv_type = type }) u wu in
    let z : Stream = record v {
      endp = s.endp;
      getp = if ltb s.endp v.getp then s.endp else v.getp;
    } in
    let e1 = set_endp_within realloc at s (omega (arith, w)) in
    let e2 = set_endp_within realloc s.endp v (ground (arith, x, w)) in
    let (g, either, e3) = close o at z h in
    (o, record z { getp = g }, rw (◌>>=◌, e1, ◌>>=◌, p, ◌>>=◌, e2) e3, ground (arith, x, w, either))

-- A decoder that was called at `s` and goes on at `u`: it stops at the end, or four bytes further
-- than it began.
abbrev pub Ends : {A : Type 0} → Stream → M (Option A) → Stream → Type 0
Ends {A} s m u =
    (o : Option A) × (t : Stream) × (m u ≡ some (o, t))
    × Same s t
    × ((t.getp ≡ s.endp) ⊎ (s.getp + 4 ≤ t.getp))

pub abort-Ends :
    {A : Type 0} (s u : Stream) → Same s u → Ends {A = A} s (decode_abort >> pure none) u
abort-Ends s u x = (
  none,
  record u { getp = u.endp },
  rw (◌>>◌, ◌>>=◌, abort_lem u) refl,
  ground (arith, x),
  inl x.same_endp,
)

pub skip-Ends :
    {A : Type 0} (s u : Stream) (at : ℕ)
    → Same s u
    → at ≤ s.endp
    → s.getp + 4 ≤ at
    → Ends {A = A} s (decode_skip at >> pure none) u
skip-Ends s u at x h k = (
  none,
  record u { getp = at },
  rw (◌>>◌, ◌>>=◌, skip_lem at u (omega (arith, x))) refl,
  ground (arith, x),
  inr k,
)

kind-Ends :
    (f : Family) (realloc : Realloc) (type size : ℕ) (s u : Stream) (kind : Option Bool)
    → IsFamily f
    → IsWell s
    → Same s u
    → let remaining = s.endp - s.getp in
      Ends {A = RouteTlv} s
        (elim kind [
          | none ↦
              (if leb 4 size && leb size remaining
                then decode_skip (s.getp + size)
                else decode_abort)
              >> pure none
          | some external ↦
              if ltb size (min_length f external) || ltb remaining size
              then decode_abort >> pure none
              else decode_tlv f true realloc external type size (s.getp + size)
        ])
        u
unfolding min_length
kind-Ends f realloc type size s u none codec w x =
    elim (Bool-cases (leb 4 size && leb size (s.endp - s.getp))) [
      | inl p ↦ rw p (skip-Ends s u (s.getp + size) x (ground (arith, p, w)) (ground (arith, p)))
      | inr p ↦ rw p (abort-Ends s u x)
    ]
kind-Ends f realloc type size s u (some external) codec w x =
    elim (Bool-cases (ltb size (min_length f external) || ltb (s.endp - s.getp) size)) [
      | inl p ↦ rw p (abort-Ends s u x)
      | inr p ↦
          let within : s.getp + size ≤ u.endp = ground (arith, p, w, x) in
          let four : 4 ≤ size = ground (arith, p, codec.fits) in
          let (o, t, q, z) =
            decode_tlv-Stops f realloc external type size (s.getp + size) u x.well within in
          (o, t, rw p q, ground (arith, x, z), ground (arith, x, z, four))
    ]

pub remaining_lem : (s : Stream) → IsWell s → stream_remaining s ≡ some (s.endp - s.getp, s)
unfolding stream_remaining
remaining_lem s w = ground arith

pub getp_lem : (s : Stream) → get_getp s ≡ some (s.getp, s)
unfolding get_getp
getp_lem s = refl

-- On any packet, the decoder runs without an access outside of the packet, whatever `realloc`
-- answers, and leaves the bytes and the end of the packet as they were. It stops at the end, or at
-- least four bytes further than it began.
pub decoder-Ends :
    (f : Family) (realloc : Realloc) (s : Stream)
    → IsFamily f
    → IsWell s
    → (o : Option RouteTlv) × (t : Stream) × (decoder f true realloc s ≡ some (o, t))
      × Same s t
      × ((t.getp ≡ s.endp) ⊎ (s.getp + 4 ≤ t.getp))
unfolding decoder Reads
decoder-Ends f realloc s codec w =
    let (type, s1, p1, x1) = stream_getw-Reads s w in
    let (size, s2, p2, x2) = stream_getw-Reads s1 x1.well in
    let x : Same s s2 = ground (arith, x1, x2) in
    let r = remaining_lem s w in
    elim (Bool-cases (ltb (s.endp - s.getp) 4)) [
      | inl few ↦ rw (◌>>=◌, getp_lem s, ◌>>=◌, r, few) (abort-Ends s s (ground (arith, w)))
      | inr enough ↦
          rw (◌>>=◌, getp_lem s, ◌>>=◌, r, enough)
            (rw (◌>>=◌, p1, ◌>>=◌, p2)
              (kind-Ends f realloc type size s s2 (tlv_kind f type) codec w x))
    ]
