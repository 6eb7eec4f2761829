-- ===== src/Stream/Bounds.antt =====
-- Every operation of a byte stream stays inside its block (eigrp/code/eigrp_stream.c).
use eigrp.Prelude.{
  ap, min, if◌then◌else◌, Bool-cases, ℕ, zero, suc, ◌+◌, ◌-◌, ◌*◌, ◌≤◌, ◌<◌, ◌≡◌, inl, inr, refl,
  Bool, true, false, Option, none, some, List, [], ◌∷◌, ◌++◌, arith, length, take, drop,
  length-append, length-take, length-drop, leb, ◌==◌,
}
use eigrp.Stream.Monad.{Stream}
use eigrp.Stream.{
  size_max, Realloc, IsRealloc, doubled, stream_ensure, with_block, enlarge, stream_get, read_block,
  write_block,
}

-- The positions are in order and inside the block.
pub record IsWell (s : Stream) : Type 0 where
  pub sized : length s.block ≡ s.size
  pub fits : s.size ≤ size_max
  pub written : s.endp ≤ s.size
  pub ordered : s.getp ≤ s.endp

-- What reading leaves as it was.
pub record Read (s t : Stream) : Type 0 where
  pub same_block : t.block ≡ s.block
  pub same_size : t.size ≡ s.size
  pub same_endp : t.endp ≡ s.endp
  pub further : s.getp ≤ t.getp

pub read_block_lem :
    (at count : ℕ) (block : List ℕ)
    → at + count ≤ length block
    → (read_block at count block ≡ some (take count (drop at block)))
      × (length (take count (drop at block)) ≡ count)
unfolding read_block
read_block_lem at count block h =
    (ground arith, omega (arith, length-take count (drop at block), length-drop at block))

pub write_block_lem :
    (at : ℕ) (bytes block : List ℕ)
    → at + length bytes ≤ length block
    → let new = take at block ++ (bytes ++ drop (at + length bytes) block) in
      (write_block at bytes block ≡ some new) × (length new ≡ length block)
unfolding write_block
write_block_lem at bytes block h = (
  ground arith,
  omega (
    arith,
    length-append (take at block) (bytes ++ drop (at + length bytes) block),
    length-append bytes (drop (at + length bytes) block),
    length-take at block,
    length-drop (at + length bytes) block,
  ),
)

pub doubled_cases :
    (fuel size needed new : ℕ)
    → size ≤ size_max
    → doubled fuel size needed ≡ some new
    → (size ≤ new) × (needed ≤ new) × (new ≤ size_max)
unfolding doubled
doubled_cases zero size needed new h p = ground arith
doubled_cases (suc fuel) size needed new h p =
    ground (arith, doubled_cases fuel (size * 2) needed new)

-- What is copied, and the fault-free result.
abbrev pub available : ℕ → Stream → ℕ
available size s = min size (s.endp - s.getp)

pub stream_get_eq :
    (size : ℕ) (s : Stream)
    → s.endp ≤ length s.block
    → stream_get size s
      ≡ some (
        take (available size s) (drop s.getp s.block),
        record s { getp = s.getp + available size s },
      )
unfolding stream_get
stream_get_eq size s inside = ground (arith, read_block_lem s.getp (available size s) s.block)

pub stream_get_lem :
    (size : ℕ) (s : Stream)
    → IsWell s
    → (bytes : List ℕ) × (t : Stream) × (stream_get size s ≡ some (bytes, t))
      × IsWell t
      × Read s t
      × (length bytes ≡ available size s)
      × (t.getp ≡ s.getp + available size s)
stream_get_lem size s w = (
  take (available size s) (drop s.getp s.block),
  record s { getp = s.getp + available size s },
  stream_get_eq size s (omega (arith, w)),
  ground arith,
  ground arith,
  omega (arith, length-take (available size s) (drop s.getp s.block), length-drop s.getp s.block),
  refl,
)

pub take_all : (xs : List ℕ) (n : ℕ) → length xs ≤ n → take n xs ≡ xs
take_all [] zero h = refl
take_all [] (suc n) h = refl
take_all (x ∷ xs) zero h = absurd (omega arith)
take_all (x ∷ xs) (suc n) h = ap (λ (t : List ℕ). x ∷ t) (take_all xs n (omega arith))

-- What making room does: the old contents stay, and a failure changes nothing.
pub record Ensured (needed : ℕ) (s : Stream) (made : Bool) (t : Stream) : Type 0 where
  pub well : IsWell t
  pub same_getp : t.getp ≡ s.getp
  pub same_endp : t.endp ≡ s.endp
  pub grown : s.size ≤ t.size
  pub kept : take s.size t.block ≡ s.block
  pub room : made ≡ true → needed ≤ t.size
  pub failed : made ≡ false → (s.size < needed) × (t ≡ s)

module _ (realloc : Realloc) (law : IsRealloc realloc) where
  with_block-Ensured :
      (needed size : ℕ) (new : Option (List ℕ)) (s : Stream)
      → IsWell s
      → realloc s.block size ≡ new
      → s.size < needed
      → needed ≤ size
      → size ≤ size_max
      → Ensured needed s (with_block size new s).0 (with_block size new s).1
  unfolding with_block
  with_block-Ensured needed size none s w p lt le fits = ground (arith, take_all s.block s.size)
  with_block-Ensured needed size (some block) s w p lt le fits =
      ground (arith, law s.block size block (omega arith) p)

  enlarge-Ensured :
      (needed start : ℕ) (size : Option ℕ) (s : Stream)
      → IsWell s
      → start ≤ size_max
      → s.size < needed
      → doubled 64 start needed ≡ size
      → Ensured needed s (enlarge realloc size s).0 (enlarge realloc size s).1
  unfolding enlarge
  enlarge-Ensured needed start none s w fits lt p = ground (arith, take_all s.block s.size)
  enlarge-Ensured needed start (some size) s w fits lt p =
      let (_, le, fits') = doubled_cases 64 start needed size fits p in
      with_block-Ensured needed size (realloc s.block size) s w refl lt le fits'

  pub stream_ensure-Ensured :
      (needed : ℕ) (s : Stream)
      → IsWell s
      → Ensured needed s (stream_ensure realloc needed s).0 (stream_ensure realloc needed s).1
  unfolding stream_ensure
  stream_ensure-Ensured needed s w = elim (Bool-cases (leb needed s.size)) [
    | inl p ↦ ground (arith, p, take_all s.block s.size)
    | inr q ↦
        let start = if s.size == 0 then 64 else s.size in
        rw q (
          enlarge-Ensured needed start (doubled 64 start needed) s w (ground arith) (ground arith)
            refl)
  ]
