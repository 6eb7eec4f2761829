-- ===== src/Stream.antt =====
-- eigrp/code/eigrp_stream.c: the byte stream that packets are read from and written to. A stream is
-- never NULL here, and `realloc` is a parameter.
mod Monad
pub mod Bounds
pub mod Safety
pub mod Views
pub mod Moves
pub mod Reads
mod Tests
pub use Monad.*
use mathlib.Core.Option
use eigrp.Prelude.{
  ℕ, zero, suc, ◌+◌, ◌-◌, ◌*◌, ◌/◌, ◌%◌, ◌^◌, ◌≤◌, ◌≡◌, Bool, true, false, not, Option, none, some,
  List, [], ◌∷◌, ◌++◌, if◌then◌else◌, ltb, leb, ◌==◌, length, take, drop, u8, u16, u32, u64,
}

-- SIZE_MAX of a 64-bit machine
abbrev pub size_max : ℕ
size_max = 18446744073709551615

-- `realloc` of the C library: the block it returns in place of the given one, or a failure.
abbrev pub Realloc : Type 0
Realloc = List ℕ → ℕ → Option (List ℕ)

-- A block that has grown begins with the old contents; its new bytes are indeterminate.
abbrev pub IsRealloc : Realloc → Type 0
IsRealloc realloc =
    (old : List ℕ) (size : ℕ) (new : List ℕ)
    → length old ≤ size
    → realloc old size ≡ some new
    → (length new ≡ size) × (take (length old) new ≡ old)

-- The doubling loop of `eigrp_stream_ensure`: the size of the block that holds `needed` bytes.
unfoldable pub doubled : ℕ → ℕ → ℕ → Option ℕ
doubled zero size needed = if ltb size needed then none else some size
doubled (suc fuel) size needed =
    let larger = doubled fuel (size * 2) needed in
    if ltb size needed then if ltb (size_max / 2) size then none else larger else some size

-- The stream with the block that `realloc` returned, if it did.
unfoldable pub with_block : ℕ → Option (List ℕ) → Stream → Bool × Stream
with_block size none s = (false, s)
with_block size (some block) s = (true, record s { block = block; size = size })

unfoldable pub enlarge : Realloc → Option ℕ → Stream → Bool × Stream
enlarge realloc none s = (false, s)
enlarge realloc (some size) s = with_block size (realloc s.block size) s

unfoldable pub stream_ensure : Realloc → ℕ → Stream → Bool × Stream
stream_ensure realloc needed s =
    if leb needed s.size
    then (true, s)
    else enlarge realloc (doubled 64 (if s.size == 0 then 64 else s.size) needed) s

-- `none` when the first block cannot be had
unfoldable pub stream_create : Realloc → ℕ → Option Stream
stream_create realloc size =
    let empty : Stream = record { block = []; size = 0; getp = 0; endp = 0 } in
    if size == 0
    then some empty
    else let (made, s) = stream_ensure realloc size empty in if made then some s else none

unfoldable pub stream_clear : M (Unit {0})
stream_clear s = some (tt, record s { getp = 0; endp = 0 })

-- `memcpy` out of a block and into it; `none` is an access outside of the block.
unfoldable pub read_block : ℕ → ℕ → List ℕ → Option (List ℕ)
read_block at count block =
    if leb (at + count) (length block) then some (take count (drop at block)) else none

unfoldable pub write_block : ℕ → List ℕ → List ℕ → Option (List ℕ)
write_block at bytes block =
    if leb (at + length bytes) (length block)
    then some (take at block ++ (bytes ++ drop (at + length bytes) block))
    else none

-- The bytes that were copied; the C code returns how many.
unfoldable pub stream_get : ℕ → M (List ℕ)
stream_get size s =
    let available = if ltb s.getp s.endp then s.endp - s.getp else 0 in
    let count = if ltb available size then available else size in
    if count == 0 then some ([], s) else elim (read_block s.getp count s.block) [
      | none ↦ none
      | some bytes ↦ some (bytes, record s { getp = s.getp + count })
    ]

-- A value of `width` bytes in network order; the bytes that were not copied are zero.
unfoldable pub big_endian : ℕ → List ℕ → ℕ
big_endian zero bytes = 0
big_endian (suc width) [] = 0
big_endian (suc width) (b ∷ bytes) = b * 256 ^ width + big_endian width bytes

unfoldable pub stream_getc : M ℕ
stream_getc = do bytes ← stream_get 1; pure (big_endian 1 bytes)

unfoldable pub stream_getw : M ℕ
stream_getw = do bytes ← stream_get 2; pure (big_endian 2 bytes)

unfoldable pub stream_getl : M ℕ
stream_getl = do bytes ← stream_get 4; pure (big_endian 4 bytes)

-- Appends at the end of the written bytes, where there is room for them.
unfoldable pub append : List ℕ → M ℕ
append bytes s = elim (write_block s.endp bytes s.block) [
  | none ↦ none
  | some block ↦ some (length bytes, record s { block = block; endp = s.endp + length bytes })
]

-- The number of bytes that were written
unfoldable pub stream_put : Realloc → List ℕ → M ℕ
stream_put realloc bytes s =
    let (room, t) = stream_ensure realloc (u64 (s.endp + length bytes)) s in
    if room then append bytes t else some (0, t)

unfoldable pub stream_putc : Realloc → ℕ → M ℕ
stream_putc realloc value = stream_put realloc (u8 value ∷ [])

-- The bytes of a word in network order
abbrev pub word_bytes : ℕ → List ℕ
word_bytes value = (value / 256 % 256) ∷ (value % 256) ∷ []

abbrev pub long_bytes : ℕ → List ℕ
long_bytes value =
    (value / 16777216 % 256) ∷ (value / 65536 % 256) ∷ (value / 256 % 256) ∷ (value % 256) ∷ []

unfoldable pub stream_putw : Realloc → ℕ → M ℕ
stream_putw realloc value = stream_put realloc (word_bytes (u16 value))

unfoldable pub stream_putl : Realloc → ℕ → M ℕ
stream_putl realloc value = stream_put realloc (long_bytes (u32 value))

unfoldable pub stream_forward_getp : ℕ → M (Unit {0})
stream_forward_getp size s = some (
  tt,
  record s { getp = if ltb s.endp (u64 (s.getp + size)) then s.endp else u64 (s.getp + size) },
)

unfoldable pub stream_set_getp : ℕ → M (Unit {0})
stream_set_getp position s =
    some (tt, record s { getp = if leb position s.endp then position else s.endp })

unfoldable pub stream_forward_endp : Realloc → ℕ → M (Unit {0})
stream_forward_endp realloc size s =
    let (room, t) = stream_ensure realloc (u64 (s.endp + size)) s in
    some (tt, if room then record t { endp = u64 (t.endp + size) } else t)

unfoldable pub stream_set_endp : Realloc → ℕ → M (Unit {0})
stream_set_endp realloc position s =
    let (room, t) = stream_ensure realloc position s in
    some (
      tt,
      if room
          then record t { endp = position; getp = if ltb position t.getp then position else t.getp }
          else t,
    )

-- The bytes of another block at the front of the own one
unfoldable pub overwrite : List ℕ → Option (List ℕ) → Stream → Option Stream
overwrite block none s = none
overwrite block (some bytes) s =
    Option.map (λ b. record s { block = b }) (write_block 0 bytes block)

-- `eigrp_stream_copy`: the written bytes and both positions of `src`.
unfoldable pub stream_copy : Realloc → Stream → M (Unit {0})
stream_copy realloc src dst =
    let (room, t) = stream_ensure realloc src.endp dst in
    if not room
    then some (tt, t)
    else Option.map (λ u. (tt, record u { getp = src.getp; endp = src.endp }))
        (if src.endp == 0 then some t else overwrite t.block (read_block 0 src.endp src.block) t)
