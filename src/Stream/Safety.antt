-- ===== src/Stream/Safety.antt =====
-- Every operation of a byte stream runs without an access outside of the block
-- (eigrp/code/eigrp_stream.c).
use mathlib.Core.Option
use eigrp.Prelude.{
  ℕ, ◌+◌, ◌≤◌, ◌≡◌, inl, inr, refl, Option, some, List, ◌++◌, arith, length, take, drop, Bool-cases,
  ◌==◌, u64,
}
use eigrp.Stream.Monad.{Stream}
use eigrp.Stream.{
  size_max, Realloc, IsRealloc, stream_ensure, stream_get, stream_put, append, stream_clear,
  stream_forward_getp, stream_set_getp, stream_forward_endp, stream_set_endp, stream_copy,
  overwrite,
}
use eigrp.Stream.Bounds.{
  IsWell, stream_ensure-Ensured, stream_get_lem, write_block_lem, read_block_lem,
}

-- The calls of a client of the stream
pub data Call : Type 0 where
  get : ℕ → Call
  put : List ℕ → Call
  clear : Call
  forward_getp : ℕ → Call
  set_getp : ℕ → Call
  forward_endp : ℕ → Call
  set_endp : ℕ → Call
  copy : Stream → Call

-- A length stays in the range of a size_t, and a stream that is copied is well.
abbrev pub InRange : Call → Stream → Type 0
InRange (put bytes) s = s.endp + length bytes ≤ size_max
InRange (forward_endp size) s = s.endp + size ≤ size_max
InRange (copy src) s = IsWell src
InRange _ s = Unit

abbrev discard : {A : Type 0} → Option (A × Stream) → Option Stream
discard r = Option.map (λ p. p.1) r

abbrev pub call : Realloc → Call → Stream → Option Stream
call realloc (get size) s = discard (stream_get size s)
call realloc (put bytes) s = discard (stream_put realloc bytes s)
call realloc clear s = discard (stream_clear s)
call realloc (forward_getp size) s = discard (stream_forward_getp size s)
call realloc (set_getp position) s = discard (stream_set_getp position s)
call realloc (forward_endp size) s = discard (stream_forward_endp realloc size s)
call realloc (set_endp position) s = discard (stream_set_endp realloc position s)
call realloc (copy src) s = discard (stream_copy realloc src s)

abbrev pub appended : List ℕ → Stream → Stream
appended bytes s = record s {
  block = take s.endp s.block ++ (bytes ++ drop (s.endp + length bytes) s.block);
  endp = s.endp + length bytes;
}

pub append_lem :
    (bytes : List ℕ) (s : Stream)
    → IsWell s
    → s.endp + length bytes ≤ s.size
    → (append bytes s ≡ some (length bytes, appended bytes s)) × IsWell (appended bytes s)
unfolding append
append_lem bytes s w room =
    let (p, q) = write_block_lem s.endp bytes s.block (omega arith) in
    (rw (append, p) refl, ground (arith, q))

module _ (realloc : Realloc) (law : IsRealloc realloc) where
  pub stream_put_lem :
      (bytes : List ℕ) (s : Stream)
      → IsWell s
      → s.endp + length bytes ≤ size_max
      → (n : ℕ) × (t : Stream) × (stream_put realloc bytes s ≡ some (n, t)) × IsWell t
  unfolding stream_put
  stream_put_lem bytes s w fits =
      let t = (stream_ensure realloc (u64 (s.endp + length bytes)) s).1 in
      let e = stream_ensure-Ensured realloc law (u64 (s.endp + length bytes)) s w in
      elim (Bool-cases (stream_ensure realloc (u64 (s.endp + length bytes)) s).0) [
        | inl made ↦
            let (p, v) = append_lem bytes t e.well (omega (arith, e.room made, e.same_endp)) in
            (length bytes, appended bytes t, rw (made, p) refl, v)
        | inr short ↦ (0, t, rw short refl, e.well)
      ]

  stream_set_endp-IsWell :
      (position : ℕ) (s : Stream)
      → IsWell s
      → (t : Stream) × (stream_set_endp realloc position s ≡ some (tt, t)) × IsWell t
  unfolding stream_set_endp
  stream_set_endp-IsWell position s w =
      let e = stream_ensure-Ensured realloc law position s w in
      (_, refl, ground (arith, e.room, e.well))

  stream_forward_endp-IsWell :
      (size : ℕ) (s : Stream)
      → IsWell s
      → s.endp + size ≤ size_max
      → (t : Stream) × (stream_forward_endp realloc size s ≡ some (tt, t)) × IsWell t
  unfolding stream_forward_endp
  stream_forward_endp-IsWell size s w fits =
      let e = stream_ensure-Ensured realloc law (u64 (s.endp + size)) s w in
      (_, refl, ground (arith, e.room, e.well, e.same_endp))

  overwrite-IsWell :
      (bytes : List ℕ) (s : Stream)
      → IsWell s
      → length bytes ≤ s.size
      → (t : Stream) × (overwrite s.block (some bytes) s ≡ some t)
        × (length t.block ≡ t.size)
        × (t.size ≡ s.size)
  unfolding overwrite
  overwrite-IsWell bytes s w fits =
      let (p, q) = write_block_lem 0 bytes s.block (omega arith) in
      (
        record s { block = bytes ++ drop (0 + length bytes) s.block },
        rw p refl,
        ground (arith, q),
        refl,
      )

  stream_copy-IsWell :
      (src s : Stream)
      → IsWell src
      → IsWell s
      → (t : Stream) × (stream_copy realloc src s ≡ some (tt, t)) × IsWell t
  unfolding stream_copy
  stream_copy-IsWell src s v w =
      let t = (stream_ensure realloc src.endp s).1 in
      let e = stream_ensure-Ensured realloc law src.endp s w in
      elim (Bool-cases (stream_ensure realloc src.endp s).0) [
        | inr short ↦ (t, rw short refl, e.well)
        | inl made ↦ elim (Bool-cases (src.endp == 0)) [
          | inl none_written ↦ (
            record t { getp = src.getp; endp = src.endp },
            rw (made, none_written) refl,
            ground (arith, e.well),
          )
          | inr written ↦
              let (p, q) = read_block_lem 0 src.endp src.block (omega arith) in
              let (u, r, b, c) =
                overwrite-IsWell (take src.endp src.block) t e.well
                  (omega (arith, e.room made, q)) in
              (
                record u { getp = src.getp; endp = src.endp },
                rw (made, written, p, r) refl,
                ground (arith, b, c, e.room made, e.well),
              )
        ]
      ]

-- A call on a well stream, its length in the range of a size_t, makes no access outside of the
-- block, and leaves the stream well, also where memory cannot be had.
pub call-IsWell :
    (realloc : Realloc) (c : Call) (s : Stream)
    → IsRealloc realloc
    → IsWell s
    → InRange c s
    → (t : Stream) × (call realloc c s ≡ some t) × IsWell t
unfolding stream_clear stream_forward_getp stream_set_getp
call-IsWell realloc (get size) s law w fits =
    let (_, t, p, v, _, _, _) = stream_get_lem size s w in (t, rw p refl, v)
call-IsWell realloc (put bytes) s law w fits =
    let (_, t, p, v) = stream_put_lem realloc law bytes s w fits in (t, rw p refl, v)
call-IsWell realloc clear s law w fits = (record s { getp = 0; endp = 0 }, refl, ground arith)
call-IsWell realloc (forward_getp size) s law w fits = (_, refl, ground arith)
call-IsWell realloc (set_getp position) s law w fits = (_, refl, ground arith)
call-IsWell realloc (forward_endp size) s law w fits =
    let (t, p, v) = stream_forward_endp-IsWell realloc law size s w fits in (t, rw p refl, v)
call-IsWell realloc (set_endp position) s law w fits =
    let (t, p, v) = stream_set_endp-IsWell realloc law position s w in (t, rw p refl, v)
call-IsWell realloc (copy src) s law w fits =
    let (t, p, v) = stream_copy-IsWell realloc law src s fits w in (t, rw p refl, v)
