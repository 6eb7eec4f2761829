-- ===== src/Stream/Moves.antt =====
-- Moving the positions of a byte stream (eigrp/code/eigrp_stream.c): an end that is moved back and
-- restored keeps every byte.
use eigrp.Prelude.{
  ℕ, ◌+◌, ◌≤◌, ◌≡◌, List, ◌++◌, some, arith, length, length-append, rev_append, length-rev_append,
  rev_append-rev_append,
}
use mathlib.Core.List.{append_assoc}
use eigrp.Stream.{Realloc, stream_ensure, stream_set_endp, stream_set_getp}
use eigrp.Stream.Views.{reading, writing}

-- The end of the stream back to the end of `next`
pub stream_set_endp-reading_back :
    (realloc : Realloc) (at : ℕ) (past next rest unused : List ℕ)
    → at ≡ length past + length next
    → stream_set_endp realloc at (reading past (next ++ rest) unused)
      ≡ some (tt, reading past next (rest ++ unused))
unfolding stream_set_endp stream_ensure reading
stream_set_endp-reading_back realloc at past next rest unused p =
    ground
      (arith, p, length-append next rest, length-append rest unused, append_assoc next rest unused)

-- The end of the stream forth again
pub stream_set_endp-reading_forth :
    (realloc : Realloc) (at : ℕ) (past next rest unused : List ℕ)
    → at ≡ length past + length (next ++ rest)
    → stream_set_endp realloc at (reading past next (rest ++ unused))
      ≡ some (tt, reading past (next ++ rest) unused)
unfolding stream_set_endp stream_ensure reading
stream_set_endp-reading_forth realloc at past next rest unused p =
    ground
      (arith, p, length-append next rest, length-append rest unused, append_assoc next rest unused)

pub stream_set_endp-writing_back :
    (realloc : Realloc) (at getp : ℕ) (bytes written room : List ℕ)
    → at ≡ length written
    → getp ≤ length written
    → stream_set_endp realloc at (writing getp (rev_append bytes written) room)
      ≡ some (tt, writing getp written (bytes ++ room))
unfolding stream_set_endp stream_ensure writing
stream_set_endp-writing_back realloc at getp bytes written room p h = ground (
  arith,
  p,
  length-append bytes room,
  length-rev_append bytes written,
  rev_append-rev_append bytes written room,
)

pub stream_set_endp-writing_forth :
    (realloc : Realloc) (at getp : ℕ) (bytes written room : List ℕ)
    → at ≡ length written + length bytes
    → getp ≤ length written
    → stream_set_endp realloc at (writing getp written (bytes ++ room))
      ≡ some (tt, writing getp (rev_append bytes written) room)
unfolding stream_set_endp stream_ensure writing
stream_set_endp-writing_forth realloc at getp bytes written room p h = ground (
  arith,
  p,
  length-append bytes room,
  length-rev_append bytes written,
  rev_append-rev_append bytes written room,
)

-- The position is already there.
pub stream_set_getp-reading :
    (at : ℕ) (past next unused : List ℕ)
    → at ≡ length past
    → stream_set_getp at (reading past next unused) ≡ some (tt, reading past next unused)
unfolding stream_set_getp reading
stream_set_getp-reading at past next unused p = ground (arith, p)
