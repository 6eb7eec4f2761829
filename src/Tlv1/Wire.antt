-- ===== src/Tlv1/Wire.antt =====
-- The sections of a classic TLV as bytes (eigrp/code/eigrp_tlv1.c): what the encoder appends and
-- the decoder takes.
use eigrp.Prelude.{
  ℕ, ◌+◌, ◌*◌, ◌/◌, ◌%◌, ◌≤◌, ◌≡◌, refl, true, some, List, [], ◌∷◌, ◌++◌, rev_append, length, drop,
  arith, u8, u16, u32,
}
use eigrp.Types.{Metrics}
use eigrp.Metric.{delay_to_scaled, scaled_to_delay}
use eigrp.Stream.{
  Stream, M, ◌>>=◌, pure, Realloc, size_max, word_bytes, long_bytes, stream_put, stream_putc,
  stream_putw, stream_putl,
}
use eigrp.Stream.Views.{
  reading, writing, stream_getc-reading, stream_getw-reading, stream_getl-reading, puts, joined,
  puts-writing,
}
use eigrp.Tlv1.Parts.{
  ExtData, stream_has, stream_remaining, external_decode, external_encode, metric_decode,
  metric_encode,
}

abbrev pub external_fields : ExtData → List (List ℕ)
external_fields e =
    long_bytes (u32 e.orig)
    ∷ long_bytes (u32 e.as_number)
    ∷ long_bytes (u32 e.tag)
    ∷ long_bytes (u32 e.metric)
    ∷ word_bytes (u16 e.reserved)
    ∷ (u8 e.protocol ∷ [])
    ∷ (u8 e.flags ∷ [])
    ∷ []

-- Every field in its width
abbrev pub received_external : ExtData → ExtData
received_external e = record {
  orig = u32 e.orig;
  as_number = u32 e.as_number;
  tag = u32 e.tag;
  metric = u32 e.metric;
  reserved = u16 e.reserved;
  protocol = u8 e.protocol;
  flags = u8 e.flags;
}

-- A value is put together from its bytes.
pub long_bytes_value :
    (v : ℕ)
    → v / 16777216 % 256 * 16777216 + v / 65536 % 256 * 65536 + v / 256 % 256 * 256 + v % 256
      ≡ u32 v
long_bytes_value v = omega arith

pub word_bytes_value : (v : ℕ) → v / 256 % 256 * 256 + v % 256 ≡ u16 v
word_bytes_value v = omega arith

pub u32_twice : (v : ℕ) → u32 (u32 v) ≡ u32 v
u32_twice v = omega arith

pub u16_twice : (v : ℕ) → u16 (u16 v) ≡ u16 v
u16_twice v = omega arith

pub ruleset read_fields = (
  ◌>>=◌, stream_getl-reading, stream_getw-reading, stream_getc-reading, long_bytes_value,
  word_bytes_value, u32_twice, u16_twice,
)

pub stream_has-reading :
    (n : ℕ) (past next unused : List ℕ)
    → n ≤ length next
    → stream_has n (reading past next unused) ≡ some (true, reading past next unused)
unfolding stream_has stream_remaining reading
stream_has-reading n past next unused h = ground arith

pub external_decode-reading :
    (old e : ExtData) (past next unused : List ℕ)
    → external_decode old (reading past (joined (external_fields e) ++ next) unused)
      ≡ some (
        (20, received_external e),
        reading (rev_append (joined (external_fields e)) past) next unused,
      )
unfolding external_decode
external_decode-reading old e past next unused =
    rw (◌>>=◌, stream_has-reading 20 past (joined (external_fields e) ++ next) unused (omega arith))
      (simp read_fields refl)

pub external_encode-writing :
    (realloc : Realloc) (e : ExtData) (room written : List ℕ) (getp : ℕ)
    → length written + length room ≤ size_max
    → 20 ≤ length room
    → external_encode realloc e (writing getp written room)
      ≡ some (20, writing getp (rev_append (joined (external_fields e)) written) (drop 20 room))
unfolding external_encode stream_putl stream_putw stream_putc
external_encode-writing realloc e room written getp fits h =
    puts-writing realloc (external_fields e) (pure 20) room written getp fits h

abbrev pub metric_fields : Metrics → List (List ℕ)
metric_fields m =
    long_bytes (u32 (delay_to_scaled m.delay))
    ∷ long_bytes (u32 m.bandwidth)
    ∷ (u8 m.mtu2 ∷ [])
    ∷ (u8 m.mtu1 ∷ [])
    ∷ (u8 m.mtu0 ∷ [])
    ∷ (u8 m.hop_count ∷ [])
    ∷ (u8 m.reliability ∷ [])
    ∷ (u8 m.load ∷ [])
    ∷ (u8 m.tag ∷ [])
    ∷ (u8 m.flags ∷ [])
    ∷ []

-- The metric in its classic format and back
abbrev pub received_metric : Metrics → Metrics
received_metric m = record {
  delay = scaled_to_delay (u32 (delay_to_scaled m.delay));
  bandwidth = u32 m.bandwidth;
  mtu0 = u8 m.mtu0;
  mtu1 = u8 m.mtu1;
  mtu2 = u8 m.mtu2;
  hop_count = u8 m.hop_count;
  reliability = u8 m.reliability;
  load = u8 m.load;
  tag = u8 m.tag;
  flags = u8 m.flags;
}

pub metric_decode-reading :
    (old m : Metrics) (past next unused : List ℕ)
    → metric_decode old (reading past (joined (metric_fields m) ++ next) unused)
      ≡ some (
        (16, received_metric m),
        reading (rev_append (joined (metric_fields m)) past) next unused,
      )
unfolding metric_decode
metric_decode-reading old m past next unused =
    rw (◌>>=◌, stream_has-reading 16 past (joined (metric_fields m) ++ next) unused (omega arith))
      (simp read_fields refl)

pub metric_encode-writing :
    (realloc : Realloc) (m : Metrics) (room written : List ℕ) (getp : ℕ)
    → length written + length room ≤ size_max
    → 16 ≤ length room
    → metric_encode realloc m (writing getp written room)
      ≡ some (16, writing getp (rev_append (joined (metric_fields m)) written) (drop 16 room))
unfolding metric_encode stream_putl stream_putc
metric_encode-writing realloc m room written getp fits h =
    puts-writing realloc (metric_fields m) (pure 16) room written getp fits h
