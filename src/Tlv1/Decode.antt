-- ===== src/Tlv1/Decode.antt =====
-- The decoder of classic TLVs on the bytes of a route (eigrp/code/eigrp_tlv1.c).
use eigrp.Prelude.{
  ℕ, ◌+◌, ◌*◌, ◌/◌, ◌%◌, ◌≤◌, ◌≡◌, ◌∙◌, refl, ap, sym, Bool, true, false, ◌||◌, some, List, [], ◌∷◌,
  ◌++◌, rev_append, length-rev_append, length, length-append, take, arith, u16, if◌then◌else◌, ltb,
  ◌==◌,
}
use mathlib.Core.List.{append-nil}
use eigrp.Family.{Family}
use eigrp.Family.Wire.{
  IsFamily, prefix_wire, length-prefix_wire, address_decode-reading, prefix_decode-reading,
}
use eigrp.Stream.{◌>>=◌, Realloc, word_bytes}
use eigrp.Stream.Views.{reading, joined, stream_getw-reading}
use eigrp.Stream.Moves.{
  stream_set_endp-reading_back, stream_set_endp-reading_forth, stream_set_getp-reading,
}
use eigrp.Tlv1.Wire.{external_fields, metric_fields, external_decode-reading, metric_decode-reading}
use eigrp.Tlv1.{
  RouteTlv, decoder, decode_tlv, decode_parts, decode_skip, create_route, zero_route, get_getp,
  get_endp, stream_remaining, tlv_kind, min_length, destination,
}
use eigrp.Tlv1.Bytes.{
  IsSendable, body, wire, received, tlv_type, length-body, type_and_size, rev_parts, parts_assoc,
  ==_self,
}

module _ (f : Family) (codec : IsFamily f) (r : RouteTlv) (v : IsSendable f r) where
  in_range :
      (external : Bool) (size : ℕ)
      → length (body f external r) + 4 ≤ size
      → let dest = 1 + f.prefix_bytes (destination f r).prefix_length in
        let bytes = u16 (4 + f.address_size + (if external then 20 else 0) + 16 + dest) in
        (dest == 0 || (ltb size bytes || bytes == 4)) ≡ false
  in_range external size h = ground (
    arith,
    length-body f codec r v external,
    length-prefix_wire f codec (destination f r) v.dest,
    codec.fits,
    codec.few (destination f r).prefix_length v.dest.bits,
  )

  pub decode_parts-reading :
      (external : Bool) (size : ℕ) (old : RouteTlv) (past next unused : List ℕ)
      → length (body f external r) + 4 ≤ size
      → decode_parts f external size old (reading past (body f external r ++ next) unused)
        ≡ some (
          some (received f external old r),
          reading (rev_append (body f external r) past) next unused,
        )
  unfolding decode_parts
  decode_parts-reading true size old past next unused h =
      let a = take f.address_size r.nexthop.ip in
      let e = joined (external_fields r.extdata) in
      let m = joined (metric_fields r.metric) in
      let d = prefix_wire f (destination f r) in
      rw
        (
          parts_assoc a e m d next,
          ◌>>=◌,
          address_decode-reading f codec old.nexthop r.nexthop past (e ++ (m ++ (d ++ next))) unused
              v.hop_bytes,
          ==_self f.address_size,
          ◌>>=◌,
          external_decode-reading old.extdata r.extdata (rev_append a past) (m ++ (d ++ next))
              unused,
          ◌>>=◌,
          metric_decode-reading old.metric r.metric (rev_append e (rev_append a past)) (d ++ next)
              unused,
          ◌>>=◌,
          prefix_decode-reading f codec (destination f r) v.dest old.dest
              (rev_append m (rev_append e (rev_append a past))) next unused,
          in_range true size h,
          rev_parts a e m d past,
        )
        refl
  decode_parts-reading false size old past next unused h =
      let a = take f.address_size r.nexthop.ip in
      let m = joined (metric_fields r.metric) in
      let d = prefix_wire f (destination f r) in
      rw
        (
          parts_assoc a [] m d next,
          ◌>>=◌,
          address_decode-reading f codec old.nexthop r.nexthop past (m ++ (d ++ next)) unused
              v.hop_bytes,
          ==_self f.address_size,
          ◌>>=◌,
          metric_decode-reading old.metric r.metric (rev_append a past) (d ++ next) unused,
          ◌>>=◌,
          prefix_decode-reading f codec (destination f r) v.dest old.dest
              (rev_append m (rev_append a past)) next unused,
          in_range false size h,
          rev_parts a [] m d past,
        )
        refl

remaining-reading :
    (past next unused : List ℕ)
    → stream_remaining (reading past next unused) ≡ some (length next, reading past next unused)
unfolding stream_remaining reading
remaining-reading past next unused = ground arith

getp-reading :
    (past next unused : List ℕ)
    → get_getp (reading past next unused) ≡ some (length past, reading past next unused)
unfolding reading get_getp
getp-reading past next unused = refl

endp-reading :
    (past next unused : List ℕ)
    → get_endp (reading past next unused)
      ≡ some (length past + length next, reading past next unused)
unfolding reading get_endp
endp-reading past next unused = refl

skip-reading :
    (at : ℕ) (past next unused : List ℕ)
    → at ≡ length past
    → decode_skip at (reading past next unused) ≡ some (tt, reading past next unused)
unfolding decode_skip reading
skip-reading at past next unused p =
    ground (arith, p, stream_set_getp-reading at past next unused p)

module _ (f : Family) (codec : IsFamily f) (r : RouteTlv) (v : IsSendable f r)
    (realloc : Realloc) where
  parts_at_end :
      (external : Bool) (size : ℕ) (old : RouteTlv) (past unused : List ℕ)
      → length (body f external r) + 4 ≤ size
      → decode_parts f external size old (reading past (body f external r) unused)
        ≡ some (
          some (received f external old r),
          reading (rev_append (body f external r) past) [] unused,
        )
  parts_at_end external size old past unused h =
      ap (λ (next : List ℕ). decode_parts f external size old (reading past next unused))
        (sym (append-nil (body f external r)))
      ∙ decode_parts-reading f codec r v external size old past [] unused h

  decode_tlv-reading :
      (external : Bool) (type size at : ℕ) (past next unused : List ℕ)
      → size ≡ 4 + length (body f external r)
      → at ≡ length past + length (body f external r)
      → decode_tlv f true realloc external type size at
          (reading past (body f external r ++ next) unused)
        ≡ some (
          some (received f external (record zero_route { tlv_type = type }) r),
          reading (rev_append (body f external r) past) next unused,
        )
  unfolding decode_tlv create_route
  decode_tlv-reading external type size at past next unused p q =
      let b = body f external r in
      rw
        (
          ◌>>=◌,
          endp-reading past (b ++ next) unused,
          ◌>>=◌,
          stream_set_endp-reading_back realloc at past b next unused q,
          ◌>>=◌,
          parts_at_end external size (record zero_route { tlv_type = type }) past (next ++ unused)
              (omega (arith, p)),
          ◌>>=◌,
          stream_set_endp-reading_forth realloc (length past + length (b ++ next))
              (rev_append b past) [] next unused
              (omega (arith, length-rev_append b past, length-append b next)),
          skip-reading at (rev_append b past) next unused
              (omega (arith, q, length-rev_append b past)),
        )
        refl

  tlv_kind_lem : (external : Bool) → tlv_kind f (tlv_type f external) ≡ some external
  unfolding tlv_kind tlv_type
  tlv_kind_lem external = ground (arith, codec.types)

  long_enough :
      (external : Bool) (next : List ℕ)
      → let size = 4 + length (body f external r) in
        (ltb size (min_length f external) || ltb (length (wire f external r ++ next)) size) ≡ false
  unfolding min_length
  long_enough external next = ground (
    arith,
    length-body f codec r v external,
    length-append (body f external r) next,
    length-prefix_wire f codec (destination f r) v.dest,
    codec.fits,
  )

  pub decoder-reading :
      (external : Bool) (past next unused : List ℕ)
      → decoder f true realloc (reading past (wire f external r ++ next) unused)
        ≡ some (
          some (received f external (record zero_route { tlv_type = tlv_type f external }) r),
          reading (rev_append (wire f external r) past) next unused,
        )
  unfolding decoder
  decoder-reading external past next unused =
      let b = body f external r in
      let t = tlv_type f external in
      let l = 4 + length b in
      let (wide, small) = type_and_size f codec r v external in
      let tv : t / 256 % 256 * 256 + t % 256 ≡ t = omega (arith, wide) in
      let lv : l / 256 % 256 * 256 + l % 256 ≡ l = omega (arith, small) in
      let header : ltb (length (wire f external r ++ next)) 4 ≡ false = ground arith in
      rw
        (
          ◌>>=◌,
          getp-reading past (wire f external r ++ next) unused,
          ◌>>=◌,
          remaining-reading past (wire f external r ++ next) unused,
          header,
          ◌>>=◌,
          stream_getw-reading (t / 256 % 256) (t % 256) past (word_bytes l ++ (b ++ next)) unused,
          ◌>>=◌,
          stream_getw-reading (l / 256 % 256) (l % 256) ((t % 256) ∷ (t / 256 % 256) ∷ past)
              (b ++ next) unused,
          tv,
          tlv_kind_lem external,
          lv,
          long_enough external next,
          tv,
          decode_tlv-reading external t l (length past + l)
              ((l % 256) ∷ (l / 256 % 256) ∷ (t % 256) ∷ (t / 256 % 256) ∷ past) next unused refl
              (omega arith),
        )
        refl
