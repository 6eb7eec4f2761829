-- ===== src/Stream/Tests.antt =====
-- Byte streams at concrete values.
use eigrp.Prelude.{
  ℕ, zero, suc, ◌+◌, ◌*◌, ◌-◌, ◌≡◌, refl, some, [], ◌∷◌, ◌++◌, arith, length, replicate,
  take-append, length-append,
}
use eigrp.Stream.{
  Stream, Realloc, IsRealloc, stream_put, stream_ensure, stream_getl, stream_get, doubled, enlarge,
  with_block, append, read_block, write_block, big_endian,
}
use eigrp.Stream.Bounds.{IsWell}
use eigrp.Stream.Safety.{call, call-IsWell, put}

-- A `realloc` that clears the new bytes
abbrev memory : Realloc
memory old size = some (old ++ replicate (size - length old) 0)

length-replicate : (n : ℕ) → length {A = ℕ} (replicate n 0) ≡ n
length-replicate zero = omega arith
length-replicate (suc n) = omega (arith, length-replicate n)

memory-IsRealloc : IsRealloc memory
memory-IsRealloc old size new h p = ground (
  arith,
  length-append old (replicate (size - length old) 0),
  length-replicate (size - length old),
  take-append old (replicate (size - length old) 0),
)

abbrev two_bytes : Stream
two_bytes = record { block = 7 ∷ 8 ∷ []; size = 2; getp = 0; endp = 2 }

two_bytes-IsWell : IsWell two_bytes
two_bytes-IsWell = ground arith

-- The block of two bytes has no room for a third.
call-IsWell_example : (t : Stream) × (call memory (put (9 ∷ [])) two_bytes ≡ some t) × IsWell t
call-IsWell_example =
    call-IsWell memory (put (9 ∷ [])) two_bytes memory-IsRealloc two_bytes-IsWell (omega arith)

put_grows :
    stream_put memory (9 ∷ []) two_bytes
    ≡ some (1, record { block = 7 ∷ 8 ∷ 9 ∷ 0 ∷ []; size = 4; getp = 0; endp = 3 })
unfolding stream_put stream_ensure doubled enlarge with_block append write_block
put_grows = refl

-- The bytes that are missing are read as zero.
getl_short :
    stream_getl two_bytes
    ≡ some (7 * 16777216 + 8 * 65536, record { block = 7 ∷ 8 ∷ []; size = 2; getp = 2; endp = 2 })
unfolding stream_getl stream_get read_block big_endian
getl_short = refl
