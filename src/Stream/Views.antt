-- ===== src/Stream/Views.antt =====
-- A byte stream seen as the bytes before a position, the latest first, and the bytes after it
-- (eigrp/code/eigrp_stream.c). Reading and writing move the position over the bytes.
use eigrp.Prelude.{
  u8, u16, ◌*◌, ◌∙◌, sym, refl, rev_append, length-rev_append, drop-rev_append, take-append,
  rev_append-rev_append, rev_append_lem, rev_append-append, take-rev_append, drop-drop, ℕ, ◌+◌, ◌≤◌,
  ◌≡◌, List, [], ◌∷◌, ◌++◌, arith, length, drop, some, none, ap, length-append, length-drop,
}
use mathlib.Core.List.{append_assoc}
use eigrp.Stream.Monad.{Stream, M}
use eigrp.Stream.{
  stream_putc, stream_putw, word_bytes, size_max, Realloc, stream_ensure, stream_get, stream_getc,
  stream_getw, stream_getl, stream_put, append, big_endian,
}
use eigrp.Stream.Bounds.{available, stream_get_eq, write_block_lem}

-- A stream to read: the bytes read, the latest first, the bytes to come, and the rest of the block.
unfoldable pub reading : List ℕ → List ℕ → List ℕ → Stream
reading past next unused = record {
  block = rev_append past (next ++ unused);
  size = length past + (length next + length unused);
  getp = length past;
  endp = length past + length next;
}

reading-inside :
    (past next unused : List ℕ)
    → length past + length next ≤ length (rev_append past (next ++ unused))
reading-inside past next unused =
    omega (arith, length-rev_append past (next ++ unused), length-append next unused)

pub stream_get-reading :
    (bytes past next unused : List ℕ)
    → stream_get (length bytes) (reading past (bytes ++ next) unused)
      ≡ some (bytes, reading (rev_append bytes past) next unused)
unfolding reading
stream_get-reading bytes past next unused =
    let s = reading past (bytes ++ next) unused in
    let a : available (length bytes) s ≡ length bytes = omega (arith, length-append bytes next) in
    ground (
      arith,
      a,
      stream_get_eq (length bytes) s (reading-inside past (bytes ++ next) unused),
      drop-rev_append past (bytes ++ next ++ unused),
      take-append bytes (next ++ unused),
      append_assoc bytes next unused,
      rev_append-rev_append bytes past (next ++ unused),
      length-rev_append bytes past,
      length-append bytes next,
    )

pub stream_getc-reading :
    (a : ℕ) (past next unused : List ℕ)
    → stream_getc (reading past (a ∷ next) unused) ≡ some (a, reading (a ∷ past) next unused)
unfolding stream_getc big_endian
stream_getc-reading a past next unused =
    ground (arith, stream_get-reading (a ∷ []) past next unused)

pub stream_getw-reading :
    (a b : ℕ) (past next unused : List ℕ)
    → stream_getw (reading past (a ∷ b ∷ next) unused)
      ≡ some (a * 256 + b, reading (b ∷ a ∷ past) next unused)
unfolding stream_getw big_endian
stream_getw-reading a b past next unused =
    ground (arith, stream_get-reading (a ∷ b ∷ []) past next unused)

pub stream_getl-reading :
    (a b c d : ℕ) (past next unused : List ℕ)
    → stream_getl (reading past (a ∷ b ∷ c ∷ d ∷ next) unused)
      ≡ some (a * 16777216 + b * 65536 + c * 256 + d, reading (d ∷ c ∷ b ∷ a ∷ past) next unused)
unfolding stream_getl big_endian
stream_getl-reading a b c d past next unused =
    ground (arith, stream_get-reading (a ∷ b ∷ c ∷ d ∷ []) past next unused)

-- A stream to write: the bytes written, the latest first, and the room after them.
unfoldable pub writing : ℕ → List ℕ → List ℕ → Stream
writing getp written room = record {
  block = rev_append written room;
  size = length written + length room;
  getp = getp;
  endp = length written;
}

append-writing :
    (bytes room written : List ℕ) (getp : ℕ)
    → length bytes ≤ length room
    → append bytes (writing getp written room)
      ≡ some (length bytes, writing getp (rev_append bytes written) (drop (length bytes) room))
unfolding append writing
append-writing bytes room written getp h =
    let fits : length written + length bytes ≤ length (rev_append written room) =
      omega (arith, length-rev_append written room) in
    ground (
      arith,
      write_block_lem (length written) bytes (rev_append written room) fits,
      take-rev_append written room,
      drop-drop (length written) (length bytes) (rev_append written room),
      drop-rev_append written room,
      rev_append-rev_append bytes written (drop (length bytes) room),
      rev_append_lem written (bytes ++ drop (length bytes) room),
      length-rev_append bytes written,
      length-drop (length bytes) room,
    )

pub stream_put-writing :
    (realloc : Realloc) (bytes room written : List ℕ) (getp : ℕ)
    → length written + length room ≤ size_max
    → length bytes ≤ length room
    → stream_put realloc bytes (writing getp written room)
      ≡ some (length bytes, writing getp (rev_append bytes written) (drop (length bytes) room))
unfolding stream_put stream_ensure writing
stream_put-writing realloc bytes room written getp fits h =
    ground (arith, append-writing bytes room written getp h)

pub stream_putc-writing :
    (realloc : Realloc) (v : ℕ) (room written : List ℕ) (getp : ℕ)
    → length written + length room ≤ size_max
    → 1 ≤ length room
    → stream_putc realloc v (writing getp written room)
      ≡ some (1, writing getp (u8 v ∷ written) (drop 1 room))
unfolding stream_putc
stream_putc-writing realloc v room written getp fits h =
    stream_put-writing realloc (u8 v ∷ []) room written getp fits h

pub stream_putw-writing :
    (realloc : Realloc) (v : ℕ) (room written : List ℕ) (getp : ℕ)
    → length written + length room ≤ size_max
    → 2 ≤ length room
    → stream_putw realloc v (writing getp written room)
      ≡ some (2, writing getp (rev_append (word_bytes (u16 v)) written) (drop 2 room))
unfolding stream_putw
stream_putw-writing realloc v room written getp fits h =
    stream_put-writing realloc (word_bytes (u16 v)) room written getp fits h

abbrev pub joined : List (List ℕ) → List ℕ
joined [] = []
joined (bytes ∷ more) = bytes ++ joined more

-- Several fields, one after the other
abbrev pub puts : {A : Type 0} → Realloc → List (List ℕ) → M A → M A
puts realloc [] k s = k s
puts realloc (bytes ∷ more) k s = elim (stream_put realloc bytes s) [
  | none ↦ none
  | some (n, t) ↦ puts realloc more k t
]

pub puts-writing :
    {A : Type 0} (realloc : Realloc) (fields : List (List ℕ)) (k : M A) (room written : List ℕ)
    (getp : ℕ)
    → length written + length room ≤ size_max
    → length (joined fields) ≤ length room
    → puts realloc fields k (writing getp written room)
      ≡ k (writing getp (rev_append (joined fields) written) (drop (length (joined fields)) room))
puts-writing realloc [] k room written getp fits h = refl
puts-writing realloc (bytes ∷ more) k room written getp fits h =
    let l = length-append bytes (joined more) in
    rw (puts, stream_put-writing realloc bytes room written getp fits (omega (arith, l)))
      (puts-writing realloc more k (drop (length bytes) room) (rev_append bytes written) getp
          (omega (arith, length-rev_append bytes written, length-drop (length bytes) room))
          (omega (arith, l, length-drop (length bytes) room))
        ∙ ap k (
            let gone = sym (drop-drop (length bytes) (length (joined more)) room) in
            rw (rev_append-append, l)
              (ap (writing getp (rev_append (joined more) (rev_append bytes written))) gone)))
