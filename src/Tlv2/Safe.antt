-- ===== src/Tlv2/Safe.antt =====
-- The decoder of wide TLVs on any packet (eigrp/code/eigrp_tlv2.c).
use eigrp.Prelude.{
  ℕ, suc, zero, ◌+◌, ◌-◌, ◌*◌, ◌≤◌, ◌<◌, ◌≡◌, ◌⊎◌, inl, inr, refl, Bool, true, false, ◌&&◌, ◌||◌,
  some, none, Option, if◌then◌else◌, arith, leb, ltb, ◌==◌, Bool-cases,
}
use eigrp.Family.{Addr, Family}
use eigrp.Stream.{Stream, M, pure, ◌>>=◌, ◌>>◌, Realloc, stream_getc, big_endian}
use eigrp.Family.Safe.{address_decode-Reads, prefix_decode-Reads}
use eigrp.Stream.Bounds.{IsWell, stream_get_lem}
use eigrp.Stream.Reads.{
  Same, Reads, pure-Reads, >>=-Reads, if-Reads, stream_getc-Reads, stream_getw-Reads,
  stream_getl-Reads, stream_set_getp-Reads,
}
use eigrp.Tlv1.{
  RouteTlv, ExtData, get_getp, get_endp, decode_abort, decode_skip, zero_route, create_route,
  stream_has,
}
use eigrp.Tlv1.Safe.{
  stream_has-Reads, set_endp_within, abort_lem, skip_lem, remaining_lem, getp_lem, Ends, abort-Ends,
  skip-Ends,
}
use eigrp.Tlv2.{
  get_bytes, get48, wide_external_decode, addpath_decode, attribute_decode, attributes_decode,
  extended_decode, wide_metric_decode, wide_parts, wide_body, Ending, malformed, foreign, accepted,
  wide_tlv, wide_close, wide_decoder, extattr_addpath, WideRoute, wide_kind, wide_min_length,
}

get_bytes-Reads : (count value : ℕ) → Reads (get_bytes count value)
unfolding get_bytes
get_bytes-Reads zero value = pure-Reads value
get_bytes-Reads (suc count) value =
    >>=-Reads _ _ stream_getc-Reads λ byte. get_bytes-Reads count (value * 256 + byte)

getp-Reads : Reads get_getp
unfolding Reads get_getp
getp-Reads s w = (s.getp, s, refl, ground arith)

wide_external_decode-Reads : (old : ExtData) → Reads (wide_external_decode old)
unfolding wide_external_decode
wide_external_decode-Reads old = >>=-Reads _ _ (stream_has-Reads 16) λ has.
    if-Reads _ _ _ (pure-Reads _) (
      >>=-Reads _ _ stream_getl-Reads λ orig. >>=-Reads _ _ stream_getl-Reads λ as_number.
        >>=-Reads _ _ stream_getl-Reads λ metric. >>=-Reads _ _ stream_getw-Reads λ reserved.
          >>=-Reads _ _ stream_getc-Reads
            λ protocol. >>=-Reads _ _ stream_getc-Reads λ flags. pure-Reads _)

module _ (f : Family) where
  addpath_decode-Reads :
      (external : Bool) (data_len : ℕ) (old : RouteTlv)
      → Reads (addpath_decode f external data_len old)
  unfolding addpath_decode
  addpath_decode-Reads external data_len old = if-Reads _ _ _ (pure-Reads _) (
      >>=-Reads _ _ (address_decode-Reads f old.nexthop) λ nexthop.
        if-Reads (nexthop.0 == 0) _ _ (pure-Reads _) (
          >>=-Reads _ _ stream_getl-Reads λ orig. >>=-Reads _ _ stream_getl-Reads λ tag.
            >>=-Reads _ _ (if-Reads external _ _ stream_getc-Reads (pure-Reads _)) λ protocol.
              >>=-Reads _ _ (if-Reads external _ _ stream_getc-Reads (pure-Reads _))
                λ flags. pure-Reads _))

getc_lem :
    (s : Stream)
    → IsWell s
    → s.getp < s.endp
    → (b : ℕ) × (t : Stream) × (stream_getc s ≡ some (b, t)) × Same s t × (t.getp ≡ s.getp + 1)
unfolding stream_getc
getc_lem s w h =
    let (bytes, t, p, v, r, _, k) = stream_get_lem 1 s w in
    (big_endian 1 bytes, t, rw (◌>>=◌, p) refl, ground (arith, v, r), ground (arith, k))

-- An attribute that is taken moves the position by its header at least.
record Moves (s t : Stream) (o : Option RouteTlv) : Type 0 where
  same : Same s t
  moves : (o ≡ none) ⊎ (s.getp + 2 ≤ t.getp)

module _ (f : Family) where
  attribute_decode_lem :
      (external : Bool) (attr_end : ℕ) (old : RouteTlv) (s : Stream)
      → IsWell s
      → attr_end ≤ s.endp
      → (o : Option RouteTlv) × (t : Stream) × (attribute_decode f external attr_end old s
          ≡ some (o, t))
        × Moves s t o
  unfolding attribute_decode Reads
  attribute_decode_lem external attr_end old s w h = elim (Bool-cases (ltb (attr_end - s.getp) 2)) [
    | inl few ↦ (none, s, rw (◌>>=◌, getp_lem s, few) refl, ground (arith, w))
    | inr enough ↦
        let (opcode, s1, p1, x1, g1) = getc_lem s w (ground (arith, enough)) in
        let (words, s2, p2, x2, g2) = getc_lem s1 x1.well (ground (arith, enough, x1, g1)) in
        elim (Bool-cases (ltb (attr_end - s2.getp) (words * 2))) [
          | inl short ↦ (
            none,
            s2,
            rw (◌>>=◌, getp_lem s, enough)
                (rw (◌>>=◌, p1, ◌>>=◌, p2, ◌>>=◌, getp_lem s2, short) refl),
            ground (arith, x1, x2),
          )
          | inr fits ↦
              let (o, s3, p3, x3) =
                if-Reads (opcode == extattr_addpath) _ _
                  (addpath_decode-Reads f external (words * 2) old)
                  (>>=-Reads _ _ (stream_set_getp-Reads (s2.getp + words * 2))
                    λ _. pure-Reads (some old))
                  s2 x2.well in
              (
                if s3.getp == s2.getp + words * 2 then o else none,
                s3,
                rw (◌>>=◌, getp_lem s, enough)
                    (rw (◌>>=◌, p1, ◌>>=◌, p2, ◌>>=◌, getp_lem s2, fits)
                      (rw (◌>>=◌, p3, ◌>>=◌, getp_lem s3) refl)),
                ground (arith, x1, x2, x3, g1, g2),
              )
        ]
  ]

  Runs : M (Option RouteTlv) → Stream → Type 0
  Runs m s = (o : Option RouteTlv) × (t : Stream) × (m s ≡ some (o, t)) × Same s t

  attributes_next :
      (external : Bool) (fuel attr_end : ℕ) (old : RouteTlv) (s : Stream)
      → (o : Option RouteTlv) (t : Stream) → (leb attr_end s.getp ≡ false)
      → (attribute_decode f external attr_end old s ≡ some (o, t))
      → Moves s t o
      → ((new : RouteTlv)
          → s.getp + 2 ≤ t.getp
          → Runs (attributes_decode f external fuel attr_end new) t)
      → Runs (attributes_decode f external (suc fuel) attr_end old) s
  unfolding attributes_decode Runs
  attributes_next external fuel attr_end old s none t more p x rest =
      (none, t, rw (◌>>=◌, getp_lem s, more) (rw (◌>>=◌, p) refl), x.same)
  attributes_next external fuel attr_end old s (some new) t more p x rest =
      let (o, u, q, y) = rest new (ground (arith, x)) in
      (o, u, rw (◌>>=◌, getp_lem s, more) (rw (◌>>=◌, p) q), ground (arith, x, y))

  -- One attribute costs one unit of fuel and two bytes.
  attributes_decode_lem :
      (external : Bool) (fuel attr_end : ℕ) (old : RouteTlv) (s : Stream)
      → IsWell s
      → attr_end ≤ s.endp
      → attr_end - s.getp < fuel
      → Runs (attributes_decode f external fuel attr_end old) s
  unfolding attributes_decode Runs
  attributes_decode_lem external zero attr_end old s w h k =
      let e : ⊥ = ground (arith, w, h, k) in absurd e
  attributes_decode_lem external (suc fuel) attr_end old s w h k =
      elim (Bool-cases (leb attr_end s.getp)) [
        | inl end ↦ (some old, s, rw (◌>>=◌, getp_lem s, end) refl, ground (arith, w))
        | inr more ↦
            let (o, t, p, x) = attribute_decode_lem external attr_end old s w h in
            attributes_next external fuel attr_end old s o t more p x λ new moved.
              attributes_decode_lem external fuel attr_end new t x.same.well
                (ground (arith, x.same, h)) (ground (arith, k, moved, more))
      ]

  extended_finish :
      (external : Bool) (attr_len : ℕ) (old : RouteTlv) (s : Stream)
      → IsWell s
      → (attr_len == 0 ≡ false)
      → (leb attr_len (s.endp - s.getp) ≡ true)
      → Runs (attributes_decode f external (suc attr_len) (s.getp + attr_len) old) s
      → (a : ℕ × RouteTlv) × (t : Stream) × (extended_decode f external attr_len old s
          ≡ some (a, t))
        × Same s t
  unfolding extended_decode stream_has Runs
  extended_finish external attr_len old s w full fits (none, t, p, x) = (
    (65535, old),
    t,
    rw full (rw (◌>>=◌, ◌>>=◌, remaining_lem s w, fits) (rw (◌>>=◌, getp_lem s, ◌>>=◌, p) refl)),
    x,
  )
  extended_finish external attr_len old s w full fits (some new, t, p, x) = (
    (attr_len, new),
    t,
    rw full (rw (◌>>=◌, ◌>>=◌, remaining_lem s w, fits) (rw (◌>>=◌, getp_lem s, ◌>>=◌, p) refl)),
    x,
  )

  extended_decode-Reads :
      (external : Bool) (attr_len : ℕ) (old : RouteTlv)
      → Reads (extended_decode f external attr_len old)
  unfolding extended_decode Reads stream_has
  extended_decode-Reads external attr_len old s w = elim (Bool-cases (attr_len == 0)) [
    | inl empty ↦ ((0, old), s, rw empty refl, ground (arith, w))
    | inr full ↦ elim (Bool-cases (leb attr_len (s.endp - s.getp))) [
      | inr short ↦ (
        (65535, old),
        s,
        rw full (rw (◌>>=◌, ◌>>=◌, remaining_lem s w, short) refl),
        ground (arith, w),
      )
      | inl fits ↦ extended_finish external attr_len old s w full fits (
          attributes_decode_lem external (suc attr_len) (s.getp + attr_len) old s w
            (ground (arith, fits, w)) (omega arith))
    ]
  ]

  wide_metric_decode-Reads :
      (external : Bool) (old : RouteTlv) → Reads (wide_metric_decode f external old)
  unfolding wide_metric_decode get48
  wide_metric_decode-Reads external old = >>=-Reads _ _ (stream_has-Reads 24) λ has.
      if-Reads _ _ _ (pure-Reads _) (
        >>=-Reads _ _ stream_getc-Reads λ attr_words. >>=-Reads _ _ stream_getc-Reads λ tag.
          >>=-Reads _ _ stream_getc-Reads λ reliability. >>=-Reads _ _ stream_getc-Reads λ load.
            >>=-Reads _ _ stream_getc-Reads λ mtu2. >>=-Reads _ _ stream_getc-Reads λ mtu1.
              >>=-Reads _ _ stream_getc-Reads λ mtu0. >>=-Reads _ _ stream_getc-Reads λ hop_count.
                >>=-Reads _ _ (get_bytes-Reads 6 0) λ delay.
                  >>=-Reads _ _ (get_bytes-Reads 6 0) λ bandwidth.
                    >>=-Reads _ _ stream_getw-Reads λ reserved.
                      >>=-Reads _ _ stream_getw-Reads λ opaque_flags.
                        >>=-Reads _ _ (extended_decode-Reads external (attr_words * 2) _)
                          λ decoded. pure-Reads _)

  wide_parts-Reads :
      (external : Bool) (size : ℕ) (source : Addr) (old : RouteTlv)
      → Reads (wide_parts f external size source old)
  unfolding wide_parts
  wide_parts-Reads external size source old =
      >>=-Reads _ _ (wide_metric_decode-Reads external old) λ metric.
        if-Reads (metric.0 == 0) _ _ (pure-Reads none) (
          >>=-Reads _ _
            (if-Reads external _ _ (wide_external_decode-Reads metric.1.extdata) (pure-Reads _))
            λ extdata. if-Reads (external && extdata.0 == 0) _ _ (pure-Reads none) (
              >>=-Reads _ _ (prefix_decode-Reads f metric.1.dest)
                λ dest. if-Reads _ _ _ (pure-Reads none) (pure-Reads _)))

  wide_body-Reads :
      (external : Bool) (size : ℕ) (source : Addr) → Reads (wide_body f true external size source)
  unfolding wide_body create_route
  wide_body-Reads external size source = >>=-Reads _ _ (stream_has-Reads 8) λ has.
      if-Reads _ _ _ (pure-Reads _) (
        >>=-Reads _ _ stream_getw-Reads λ afi. >>=-Reads _ _ stream_getw-Reads λ tid.
          >>=-Reads _ _ stream_getl-Reads λ rid. if-Reads _ _ _ (pure-Reads _) (
            >>=-Reads _ _ (pure-Reads zero_route) λ created.
              >>=-Reads _ _
                (wide_parts-Reads external size source (record created {
                  tlv_type =
                      if external then f.classic_external_tlv_type else f.classic_internal_tlv_type;
                  extdata = record created.extdata { orig = rid };
                }))
                λ parts. pure-Reads (elim parts [
                  | none ↦ malformed
                  | some route ↦ accepted (record { topology_id = tid; route = route })
                ])))

close :
    (ending : Ending) (at : ℕ) (s : Stream)
    → at ≤ s.endp
    → (o : Option WideRoute) × (p : ℕ) × ((p ≡ s.endp) ⊎ (p ≡ at))
      × (wide_close at ending s ≡ some (o, record s { getp = p }))
unfolding wide_close
close malformed at s h = (none, s.endp, inl refl, rw (◌>>◌, ◌>>=◌, abort_lem s) refl)
close foreign at s h = (none, at, inr refl, rw (◌>>◌, ◌>>=◌, skip_lem at s h) refl)
close (accepted route) at s h = (some route, at, inr refl, rw (◌>>◌, ◌>>=◌, skip_lem at s h) refl)

tlv_lem :
    (f : Family) (realloc : Realloc) (external : Bool) (size : ℕ) (source : Addr) (at : ℕ)
    (s : Stream)
    → IsWell s
    → at ≤ s.endp
    → (o : Option WideRoute) × (t : Stream) × (wide_tlv f true realloc external size source at s
        ≡ some (o, t))
      × Same s t
      × ((t.getp ≡ s.endp) ⊎ (t.getp ≡ at))
unfolding wide_tlv get_endp Reads
tlv_lem f realloc external size source at s w h =
    let u : Stream = record s { endp = at; getp = if ltb at s.getp then at else s.getp } in
    let wu : IsWell u = ground (arith, w) in
    let (ending, v, p, x) = wide_body-Reads f external size source u wu in
    let z : Stream = record v {
      endp = s.endp;
      getp = if ltb s.endp v.getp then s.endp else v.getp;
    } in
    let e1 = set_endp_within realloc at s (omega (arith, w)) in
    let e2 = set_endp_within realloc s.endp v (ground (arith, x, w)) in
    let (o, g, either, e3) = close ending at z h in
    (o, record z { getp = g }, rw (◌>>=◌, e1, ◌>>=◌, p, ◌>>=◌, e2) e3, ground (arith, x, w), either)

kind-Ends :
    (f : Family) (realloc : Realloc) (source : Addr) (size : ℕ) (s u : Stream) (kind : Option Bool)
    → IsWell s
    → Same s u
    → let remaining = s.endp - s.getp in
      Ends {A = WideRoute} s
        (elim kind [
          | none ↦
              (if leb 4 size && leb size remaining
                then decode_skip (s.getp + size)
                else decode_abort)
              >> pure none
          | some external ↦
              if ltb size (wide_min_length external) || ltb remaining size
              then decode_abort >> pure none
              else wide_tlv f true realloc external size source (s.getp + size)
        ])
        u
unfolding wide_min_length
kind-Ends f realloc source size s u none w x =
    elim (Bool-cases (leb 4 size && leb size (s.endp - s.getp))) [
      | inl p ↦ rw p (skip-Ends s u (s.getp + size) x (ground (arith, p, w)) (ground (arith, p)))
      | inr p ↦ rw p (abort-Ends s u x)
    ]
kind-Ends f realloc source size s u (some external) w x =
    elim (Bool-cases (ltb size (wide_min_length external) || ltb (s.endp - s.getp) size)) [
      | inl p ↦ rw p (abort-Ends s u x)
      | inr p ↦
          let within : s.getp + size ≤ u.endp = ground (arith, p, w, x) in
          let four : 4 ≤ size = ground (arith, p) in
          let (o, t, q, same, at) =
            tlv_lem f realloc external size source (s.getp + size) u x.well within in
          (o, t, rw p q, ground (arith, x, same), ground (arith, x, same, at, four))
    ]

-- On any packet, the decoder of wide TLVs runs without an access outside of the packet, whatever
-- `realloc` answers, the loop over the attributes ends within its fuel, and the bytes and the end of
-- the packet are as they were. It stops at the end, or at least four bytes further than it began.
pub wide_decoder-Ends :
    (f : Family) (realloc : Realloc) (source : Addr) (s : Stream)
    → IsWell s
    → (o : Option WideRoute) × (t : Stream) × (wide_decoder f true realloc source s ≡ some (o, t))
      × Same s t
      × ((t.getp ≡ s.endp) ⊎ (s.getp + 4 ≤ t.getp))
unfolding wide_decoder Reads
wide_decoder-Ends f realloc source s w =
    let (type, s1, p1, x1) = stream_getw-Reads s w in
    let (size, s2, p2, x2) = stream_getw-Reads s1 x1.well in
    let x : Same s s2 = ground (arith, x1, x2) in
    let r = remaining_lem s w in
    elim (Bool-cases (ltb (s.endp - s.getp) 4)) [
      | inl few ↦ rw (◌>>=◌, getp_lem s, ◌>>=◌, r, few) (abort-Ends s s (ground (arith, w)))
      | inr enough ↦
          rw (◌>>=◌, getp_lem s, ◌>>=◌, r, enough)
            (rw (◌>>=◌, p1, ◌>>=◌, p2) (kind-Ends f realloc source size s s2 (wide_kind type) w x))
    ]
