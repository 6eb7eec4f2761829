-- ===== src/Tlv1/Finish.antt =====
-- The end of the encoder of classic TLVs (eigrp/code/eigrp_tlv1.c): the length field is filled in.
use eigrp.Prelude.{
  ℕ, ◌+◌, ◌-◌, ◌≤◌, ◌<◌, ◌≡◌, refl, false, some, List, ◌++◌, rev_append, length-rev_append, length,
  length-append, length-drop, drop, arith, u16, ◌==◌,
}
use eigrp.Stream.{◌>>=◌, ◌>>◌, Realloc, size_max, word_bytes}
use eigrp.Stream.Views.{writing, stream_putw-writing}
use eigrp.Stream.Moves.{stream_set_endp-writing_back, stream_set_endp-writing_forth}
use eigrp.Tlv1.{finish_tlv, get_endp}

-- There is room for `n` bytes more.
pub record Room (n : ℕ) (written room : List ℕ) : Type 0 where
  pub fits : length written + length room ≤ size_max
  pub enough : n ≤ length room

pub Room-step :
    (m n : ℕ) (bytes written room : List ℕ)
    → length bytes ≤ m
    → Room (m + n) written room
    → Room n (rev_append bytes written) (drop (length bytes) room)
Room-step m n bytes written room h r =
    ground (arith, r, length-rev_append bytes written, length-drop (length bytes) room)

pub endp-writing :
    (getp : ℕ) (written room : List ℕ)
    → get_endp (writing getp written room) ≡ some (length written, writing getp written room)
unfolding get_endp writing
endp-writing getp written room = refl

-- The end goes back to the length field, and forth again.
pub finish_tlv-writing :
    (realloc : Realloc) (getp : ℕ) (bytes written room : List ℕ) (size at encoded : ℕ)
    → Room 0 (rev_append (word_bytes 0 ++ bytes) written) room
    → getp ≤ length written
    → size ≡ 4 + length bytes
    → at + 2 ≡ length written
    → size < 65536
    → 0 < encoded
    → finish_tlv realloc at encoded (writing getp (rev_append (word_bytes 0 ++ bytes) written) room)
      ≡ some (size, writing getp (rev_append (word_bytes size ++ bytes) written) room)
unfolding finish_tlv
finish_tlv-writing realloc getp bytes written room size at encoded k h p q lt pos =
    let w = rev_append (word_bytes 0 ++ bytes) written in
    let lw = length-rev_append (word_bytes 0 ++ bytes) written in
    let same : u16 (length w - at) ≡ size = omega (arith, lw, p, q) in
    let narrow : u16 size ≡ size = omega (arith, lt) in
    let some_encoded : (encoded == 0) ≡ false = ground arith in
    rw
      (
        some_encoded,
        ◌>>=◌,
        endp-writing getp w room,
        ◌>>◌,
        stream_set_endp-writing_back realloc (at + 2) getp (word_bytes 0 ++ bytes) written room q h,
        ◌>>◌,
        same,
        stream_putw-writing realloc size (word_bytes 0 ++ bytes ++ room) written getp
            (omega (arith, k, lw, length-append bytes room)) (omega arith),
        ◌>>◌,
        stream_set_endp-writing_forth realloc (length w) getp bytes
            (rev_append (word_bytes (u16 size)) written) room (omega (arith, lw))
            (omega (arith, h)),
        same,
        narrow,
      )
      refl
