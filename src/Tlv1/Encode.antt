-- ===== src/Tlv1/Encode.antt =====
-- The encoder of classic TLVs (eigrp/code/eigrp_tlv1.c): the bytes that it appends for a route.
use eigrp.Prelude.{
  ℕ, ◌+◌, ◌≤◌, ◌≡◌, ◌∙◌, refl, ap, sym, Bool, true, false, some, List, ◌++◌, rev_append,
  length-rev_append, length, length-take, length-drop, drop-drop, take, drop, arith, u16,
  if◌then◌else◌, ◌==◌,
}
use eigrp.Family.{Family, prefix_encode}
use eigrp.Family.Wire.{
  IsFamily, prefix_wire, length-prefix_wire, address_encode-writing, prefix_encode-writing,
}
use eigrp.Stream.{M, ◌>>=◌, ◌>>◌, pure, Realloc, word_bytes}
use eigrp.Stream.Views.{writing, joined, stream_putw-writing}
use eigrp.Tlv1.Wire.{metric_fields, external_encode-writing, metric_encode-writing}
use eigrp.Tlv1.{RouteTlv, encode_tlv, finish_tlv, destination, external_encode, metric_encode}
use eigrp.Tlv1.Bytes.{
  IsSendable, body, wire, external_part, length-body, rev_parts, ==_self, tlv_type, tlv_size,
  type_and_size,
}
use eigrp.Tlv1.Finish.{Room, Room-step, endp-writing, finish_tlv-writing}

drop_parts :
    (a b c d : ℕ) (room : List ℕ)
    → drop (a + b + c + d) room ≡ drop d (drop c (drop b (drop a room)))
drop_parts a b c d room =
    drop-drop (a + b + c) d room
    ∙ ap (drop d) (drop-drop (a + b) c room ∙ ap (drop c) (drop-drop a b room))

module _ (f : Family) (codec : IsFamily f) (r : RouteTlv) (v : IsSendable f r)
    (realloc : Realloc) where
  external_section :
      (external : Bool) (written room : List ℕ) (getp : ℕ)
      → Room 20 written room
      → (if tlv_type f external == f.classic_external_tlv_type
            then external_encode realloc r.extdata
            else pure 0)
          (writing getp written room)
        ≡ some (
          if external then 20 else 0,
          writing getp
              (rev_append (external_part external r) written)
              (drop (if external then 20 else 0) room),
        )
  unfolding tlv_type
  external_section true written room getp k =
      rw (==_self f.classic_external_tlv_type)
        (external_encode-writing realloc r.extdata room written getp k.fits k.enough)
  external_section false written room getp k =
      let other : (f.classic_internal_tlv_type == f.classic_external_tlv_type) ≡ false =
        ground (arith, codec.types) in
      rw other refl

  abbrev room_after : Bool → List ℕ → List ℕ
  room_after external room =
      drop (length (prefix_wire f (destination f r)))
        (drop 16 (drop (if external then 20 else 0) (drop f.address_size room)))

  -- The sections after the header
  sections :
      {A : Type 0} (external : Bool) (getp : ℕ) (written room : List ℕ) (k : ℕ → M A)
      → Room 76 written room
      → (do
        if tlv_type f external == f.classic_external_tlv_type
            then external_encode realloc r.extdata
            else pure 0
        metric_encode realloc r.metric
        encoded ← prefix_encode f realloc (destination f r)
        k encoded)
          (writing getp
            (rev_append (take f.address_size r.nexthop.ip) written)
            (drop f.address_size room))
        ≡ k
            (length (prefix_wire f (destination f r)))
            (writing getp (rev_append (body f external r) written) (room_after external room))
  sections external getp written room k h =
      let a = take f.address_size r.nexthop.ip in
      let m = joined (metric_fields r.metric) in
      let e = external_part external r in
      let la : length a ≡ f.address_size =
        omega (arith, v.hop_bytes, length-take f.address_size r.nexthop.ip, codec.fits) in
      let le : length e ≡ (if external then 20 else 0) = ground arith in
      let w1 = rev_append a written in
      let w2 = rev_append e w1 in
      let w3 = rev_append m w2 in
      let r1 = drop f.address_size room in
      let r2 = drop (if external then 20 else 0) r1 in
      let h1 : Room 60 w1 r1 =
        ground (
          arith,
          h,
          la,
          codec.fits,
          length-rev_append a written,
          length-drop f.address_size room,
        ) in
      let h2 : Room 40 w2 r2 =
        ground
          (arith, h1, le, length-rev_append e w1, length-drop (if external then 20 else 0) r1) in
      let h3 : Room 24 w3 (drop 16 r2) = Room-step 16 24 m w2 r2 (omega arith) h2 in
      rw
        (
          ◌>>=◌,
          external_section external w1 r1 getp
              (record { fits = h1.fits; enough = omega (arith, h1) }),
          ◌>>=◌,
          metric_encode-writing realloc r.metric r2 w2 getp h2.fits (omega (arith, h2)),
          ◌>>=◌,
          prefix_encode-writing f codec (destination f r) v.dest realloc (drop 16 r2) w3 getp
              h3.fits (omega (arith, h3)),
          ← length-prefix_wire f codec (destination f r) v.dest,
          rev_parts a e m (prefix_wire f (destination f r)) written,
        )
        refl

  room_left :
      (external : Bool) (room : List ℕ)
      → room_after external (drop 2 (drop 2 room)) ≡ drop (tlv_size f external r) room
  room_left external room =
      let e = if external then 20 else 0 in
      let d = length (prefix_wire f (destination f r)) in
      let n = f.address_size + e + 16 + d in
      let sum : 4 + n ≡ tlv_size f external r = omega (arith, length-body f codec r v external) in
      sym (
        ap (λ (k : ℕ). drop k room) (sym sum)
        ∙ (drop-drop 4 n room
            ∙ (ap (drop n) (drop-drop 2 2 room)
                ∙ drop_parts f.address_size e 16 d (drop 2 (drop 2 room)))))

  -- What the encoder appends
  pub encode_tlv-writing :
      (external : Bool) (getp : ℕ) (written room : List ℕ)
      → getp ≤ length written
      → Room 80 written room
      → encode_tlv f realloc (tlv_type f external) r (writing getp written room)
        ≡ some (
          tlv_size f external r,
          writing getp (rev_append (wire f external r) written) (drop (tlv_size f external r) room),
        )
  unfolding encode_tlv
  encode_tlv-writing external getp written room h k =
      let t = tlv_type f external in
      let (wide, small) = type_and_size f codec r v external in
      let narrow : u16 t ≡ t = omega (arith, wide) in
      let w2 = rev_append (word_bytes t) written in
      let k2 : Room 78 w2 (drop 2 room) =
        Room-step 2 78 (word_bytes t) written room (omega arith) k in
      let w4 = rev_append (word_bytes 0) w2 in
      let r4 = drop 2 (drop 2 room) in
      let k4 : Room 76 w4 r4 = Room-step 2 76 (word_bytes 0) w2 (drop 2 room) (omega arith) k2 in
      let b = body f external r in
      let left : room_after external r4 ≡ drop (tlv_size f external r) room =
        room_left external room in
      let k5 : Room 0 (rev_append (word_bytes 0 ++ b) w2) (drop (tlv_size f external r) room) =
        ground (
          arith,
          k,
          small,
          length-rev_append (word_bytes 0 ++ b) w2,
          length-rev_append (word_bytes t) written,
          length-drop (tlv_size f external r) room,
        ) in
      rw
        (
          ◌>>=◌,
          endp-writing getp written room,
          ◌>>=◌,
          stream_putw-writing realloc t room written getp k.fits (omega (arith, k)),
          narrow,
          ◌>>=◌,
          stream_putw-writing realloc 0 (drop 2 room) w2 getp k2.fits (omega (arith, k2)),
          ◌>>=◌,
          address_encode-writing f codec realloc r.nexthop r4 w4 getp v.hop_family v.hop_bytes
              k4.fits (omega (arith, k4)),
          ==_self f.address_size,
          sections external getp w4 r4 (finish_tlv realloc (length written)) k4,
          left,
          finish_tlv-writing realloc getp b w2 (drop (tlv_size f external r) room)
              (tlv_size f external r) (length written) (length (prefix_wire f (destination f r))) k5
              (omega (arith, h, length-rev_append (word_bytes t) written)) refl
              (omega (arith, length-rev_append (word_bytes t) written)) (omega (arith, small))
              (omega arith),
        )
        refl
