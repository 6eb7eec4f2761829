-- ===== src/Tlv1/RoundTrip.antt =====
-- From the encoder of classic TLVs to the decoder (eigrp/code/eigrp_tlv1.c).
use eigrp.Prelude.{
  ℕ, zero, suc, ◌+◌, ◌≤◌, ◌<◌, ◌≡◌, ◌∙◌, refl, ap, sym, Bool, true, false, some, List, [], ◌∷◌,
  ◌++◌, rev_append, rev_append-rev_append, length-rev_append, length, length-take, length-drop,
  take, drop, arith, ◌==◌, u32, Bool-cases, inl, inr, if◌then◌else◌,
}
use mathlib.Core.List.{append-nil}
use eigrp.Types.{Metrics}
use eigrp.Metric.{delay_to_scaled, scaled_to_delay}
use eigrp.Metric.Scale.{scaled_to_delay-delay_to_scaled}
use eigrp.Metric.Total.{delay_to_scaled-le}
use eigrp.Prefix.{Prefix}
use eigrp.Family.{Family}
use eigrp.Family.Wire.{IsFamily}
use eigrp.Stream.{Stream, ◌>>=◌, Realloc}
use eigrp.Stream.Bounds.{IsWell}
use eigrp.Stream.Views.{reading, writing, joined}
use eigrp.Tlv1.Wire.{received_metric, metric_fields, metric_encode-writing, metric_decode-reading}
use eigrp.Tlv1.{
  RouteTlv, decoder, encoder, poison, route_tlv_type, encode_tlv, zero_route, destination,
  metric_encode, metric_decode,
}
use eigrp.Tlv1.Bytes.{IsSendable, wire, received, tlv_type, tlv_size}
use eigrp.Tlv1.Decode.{decoder-reading}
use eigrp.Tlv1.Encode.{encode_tlv-writing}
use eigrp.Tlv1.Finish.{Room}

take-drop : (n : ℕ) (xs : List ℕ) → take n xs ++ drop n xs ≡ xs
take-drop zero xs = refl
take-drop (suc n) [] = refl
take-drop (suc n) (x ∷ xs) = ap (λ (t : List ℕ). x ∷ t) (take-drop n xs)

rev_append_twice : (xs ys zs : List ℕ) → rev_append (rev_append xs ys) zs ≡ rev_append ys (xs ++ zs)
rev_append_twice xs ys zs = rev_append-rev_append xs ys zs

-- Every well stream is one to write.
as_writing :
    (s : Stream)
    → IsWell s
    → s ≡ writing s.getp (rev_append (take s.endp s.block) []) (drop s.endp s.block)
unfolding writing
as_writing s w = ground (
  arith,
  w,
  length-rev_append (take s.endp s.block) [],
  length-take s.endp s.block,
  length-drop s.endp s.block,
  rev_append_twice (take s.endp s.block) [] (drop s.endp s.block),
  take-drop s.endp s.block,
)

-- What has been written since the position to read is what is to be read.
writing_as_reading :
    (bytes written room : List ℕ)
    → writing (length written) (rev_append bytes written) room ≡ reading written bytes room
unfolding writing reading
writing_as_reading bytes written room =
    ground (arith, length-rev_append bytes written, rev_append-rev_append bytes written room)

reading_ends :
    (past next unused : List ℕ)
    → ((reading past next unused).getp ≡ length past)
      × ((reading past next unused).endp ≡ length past + length next)
unfolding reading
reading_ends past next unused = (refl, refl)

-- A packet with room for a route, all of whose bytes have been read.
pub record IsOpen (s : Stream) : Type 0 where
  pub well : IsWell s
  pub all_read : s.getp ≡ s.endp
  pub room : s.endp + 80 ≤ s.size

-- The fields of a classic metric within the widths of their fields
pub record IsClassic (m : Metrics) : Type 0 where
  pub delay : (0 < m.delay) × (m.delay < 16777216)
  pub bandwidth : m.bandwidth < 4294967296
  pub mtu : (m.mtu0 < 256) × (m.mtu1 < 256) × (m.mtu2 < 256)
  pub octets :
      (m.hop_count < 256) × (m.reliability < 256) × (m.load < 256) × (m.tag < 256) × (m.flags < 256)

u32-delay_to_scaled : (d : ℕ) → u32 (delay_to_scaled d) ≡ delay_to_scaled d
u32-delay_to_scaled d = omega (arith, delay_to_scaled-le d)

received_metric_lem : (m : Metrics) → IsClassic m → received_metric m ≡ m
received_metric_lem m c =
    ground
      (arith, c, u32-delay_to_scaled m.delay, scaled_to_delay-delay_to_scaled m.delay (c.delay.1))

-- A metric with a delay that is not zero and has 24 bits, a bandwidth of 32 bits, an MTU of three
-- bytes and its other fields in a byte each, that the encoder of metrics writes to a packet with
-- room whose bytes have all been read, comes back from the decoder of metrics as it was, and all
-- bytes have been read again.
pub metric_decode-metric_encode :
    (realloc : Realloc) (old m : Metrics) (s : Stream)
    → IsClassic m
    → IsOpen s
    → (t : Stream) × ((metric_encode realloc m >>= λ n. metric_decode old) s ≡ some ((16, m), t))
      × (t.getp ≡ t.endp)
      × (t.endp ≡ s.endp + 16)
metric_decode-metric_encode realloc old m s c o =
    let w = rev_append (take s.endp s.block) [] in
    let room = drop s.endp s.block in
    let b = joined (metric_fields m) in
    let lw : length w ≡ s.endp =
      omega
        (arith, o.well, length-rev_append (take s.endp s.block) [], length-take s.endp s.block) in
    let k : Room 16 w room = ground (arith, lw, o.well, o.room, length-drop s.endp s.block) in
    let at_end : s ≡ writing (length w) w room =
      as_writing s o.well ∙ ap (λ (g : ℕ). writing g w room) (omega (arith, lw, o.all_read)) in
    let wrote = metric_encode-writing realloc m room w (length w) k.fits k.enough in
    let ends = reading_ends (rev_append b w) [] (drop 16 room) in
    (
      reading (rev_append b w) [] (drop 16 room),
      ap (λ (x : Stream). (metric_encode realloc m >>= λ n. metric_decode old) x) at_end
          ∙ rw (◌>>=◌, wrote, writing_as_reading b w (drop 16 room))
              (metric_decode-reading old m w [] (drop 16 room)
                ∙ ap (λ (x : Metrics). some ((16, x), reading (rev_append b w) [] (drop 16 room)))
                    (received_metric_lem m c)),
      omega (arith, ends),
      omega (arith, lw, ends, length-rev_append b w),
    )

poisoned_delay :
    (f : Family) (filtered : Prefix → Bool) (r : RouteTlv)
    → if filtered (destination f r)
      then (received_metric (poison f filtered r).metric).delay ≡ 16777215
      else Unit {0}
unfolding poison delay_to_scaled scaled_to_delay
poisoned_delay f filtered r = elim (Bool-cases (filtered (destination f r))) [
  | inl drops ↦ rw drops refl
  | inr passes ↦ rw passes tt
]

module _ (f : Family) (codec : IsFamily f) (realloc : Realloc) (filtered : Prefix → Bool)
    (r : RouteTlv) (v : IsSendable f r) where
  sendable : IsSendable f (poison f filtered r)
  unfolding poison
  sendable = ground (arith, v)

  type_kept : route_tlv_type f (poison f filtered r) ≡ route_tlv_type f r
  unfolding poison route_tlv_type
  type_kept = ground arith

  nonzero : (external : Bool) → 0 < tlv_type f external
  unfolding tlv_type
  nonzero external = ground (arith, codec.type_range, codec.types)

  encoder-writing :
      (external : Bool) (s : Stream)
      → IsOpen s
      → route_tlv_type f r ≡ tlv_type f external
      → let sent = poison f filtered r in
        let w = rev_append (take s.endp s.block) [] in
        encoder f realloc filtered r s
        ≡ some (
          (tlv_size f external sent, sent),
          reading w (wire f external sent) (drop (tlv_size f external sent) (drop s.endp s.block)),
        )
  unfolding encoder
  encoder-writing external s o p =
      let sent = poison f filtered r in
      let w = rev_append (take s.endp s.block) [] in
      let room = drop s.endp s.block in
      let size = tlv_size f external sent in
      let lw : length w ≡ s.endp =
        omega
          (arith, o.well, length-rev_append (take s.endp s.block) [], length-take s.endp s.block) in
      let k : Room 80 w room = ground (arith, lw, o.well, o.room, length-drop s.endp s.block) in
      let at_end : s ≡ writing (length w) w room =
        as_writing s o.well ∙ ap (λ (g : ℕ). writing g w room) (omega (arith, lw, o.all_read)) in
      let done =
        encode_tlv-writing f codec sent sendable realloc external (length w) w room (omega arith)
          k in
      let known : (tlv_type f external == 0) ≡ false = ground (arith, nonzero external) in
      rw (type_kept, p, known)
        (rw
          (
            ◌>>=◌,
            ap (encode_tlv f realloc (tlv_type f external) sent) at_end,
            done,
            writing_as_reading (wire f external sent) w (drop size room),
          )
          refl)

-- A packet that has room for a route takes its TLV whole, without asking for memory, and the
-- decoder of a peer of the same family, for which memory is at hand, reads it back from there and stops at its end.
-- The peer takes the next hop, the destination in its normal form, the metric in its classic
-- format and the data of an external route. The classic format has no infinite delay: a route that
-- the filter has poisoned arrives with the delay 16777215, which is not the infinity of 32 bits.
pub decoder-encoder :
    (f : Family) (realloc : Realloc) (filtered : Prefix → Bool) (r : RouteTlv) (external : Bool)
    (s : Stream)
    → IsFamily f
    → IsSendable f r
    → route_tlv_type f r ≡ tlv_type f external
    → IsOpen s
    → (size : ℕ) × (t : Stream) × (u : Stream) × (encoder f realloc filtered r s
        ≡ some ((size, poison f filtered r), t))
      × (t.endp ≡ s.endp + size)
      × (decoder f true realloc t
          ≡ some (
            some (
                received f external
                  (record zero_route { tlv_type = tlv_type f external })
                  (poison f filtered r)),
            u,
          ))
      × (u.getp ≡ t.endp)
      × (u.endp ≡ t.endp)
      × (if filtered (destination f r)
          then (received_metric (poison f filtered r).metric).delay ≡ 16777215
          else Unit {0})
decoder-encoder f realloc filtered r external s codec v p o =
    let sent = poison f filtered r in
    let w = rev_append (take s.endp s.block) [] in
    let b = wire f external sent in
    let size = tlv_size f external sent in
    let room = drop size (drop s.endp s.block) in
    let v' = sendable f codec realloc filtered r v in
    let lw : length w ≡ s.endp =
      omega
        (arith, o.well, length-rev_append (take s.endp s.block) [], length-take s.endp s.block) in
    let ends = reading_ends w b room in
    let ends' = reading_ends (rev_append b w) [] room in
    (
      size,
      reading w b room,
      reading (rev_append b w) [] room,
      encoder-writing f codec realloc filtered r v external s o p,
      omega (arith, lw, ends),
      ap (λ (l : List ℕ). decoder f true realloc (reading w l room)) (sym (append-nil b))
          ∙ decoder-reading f codec sent v' realloc external w [] room,
      omega (arith, ends, ends', length-rev_append b w),
      omega (arith, ends, ends', length-rev_append b w),
      poisoned_delay f filtered r,
    )
