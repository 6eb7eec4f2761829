-- ===== src/Stream/Reads.antt =====
-- Operations that only read a byte stream (eigrp/code/eigrp_stream.c): they never fault, and leave
-- the bytes and the end as they were.
use eigrp.Prelude.{ℕ, ◌≡◌, refl, Bool, true, false, some, if◌then◌else◌, arith, leb}
use eigrp.Stream.{
  Stream, M, pure, ◌>>=◌, stream_get, stream_getc, stream_getw, stream_getl, stream_set_getp,
  big_endian,
}
use eigrp.Stream.Bounds.{IsWell, stream_get_lem}

pub record Same (s t : Stream) : Type 0 where
  pub well : IsWell t
  pub same_block : t.block ≡ s.block
  pub same_size : t.size ≡ s.size
  pub same_endp : t.endp ≡ s.endp

unfoldable pub Reads : {A : Type 0} → M A → Type 0
Reads {A} m = (s : Stream) → IsWell s → (a : A) × (t : Stream) × (m s ≡ some (a, t)) × Same s t

pub pure-Reads : {A : Type 0} (a : A) → Reads (pure a)
unfolding Reads
pure-Reads a s w = (a, s, refl, ground arith)

pub >>=-Reads :
    {A B : Type 0} (m : M A) (f : A → M B) → Reads m → ((a : A) → Reads (f a)) → Reads (m >>= f)
unfolding Reads
>>=-Reads m f h k s w =
    let (a, t, p, u) = h s w in
    let (b, t', q, u') = k a t u.well in (b, t', rw (◌>>=◌, p) q, ground (arith, u, u'))

pub if-Reads : {A : Type 0} (b : Bool) (m n : M A) → Reads m → Reads n → Reads (if b then m else n)
if-Reads true m n h k = h
if-Reads false m n h k = k

pub stream_get-Reads : (n : ℕ) → Reads (stream_get n)
unfolding Reads
stream_get-Reads n s w =
    let (bytes, t, p, v, r, _, _) = stream_get_lem n s w in (bytes, t, p, ground (arith, v, r))

pub stream_getc-Reads : Reads stream_getc
unfolding stream_getc
stream_getc-Reads = >>=-Reads _ _ (stream_get-Reads 1) λ bytes. pure-Reads (big_endian 1 bytes)

pub stream_getw-Reads : Reads stream_getw
unfolding stream_getw
stream_getw-Reads = >>=-Reads _ _ (stream_get-Reads 2) λ bytes. pure-Reads (big_endian 2 bytes)

pub stream_getl-Reads : Reads stream_getl
unfolding stream_getl
stream_getl-Reads = >>=-Reads _ _ (stream_get-Reads 4) λ bytes. pure-Reads (big_endian 4 bytes)

pub stream_set_getp-Reads : (at : ℕ) → Reads (stream_set_getp at)
unfolding Reads stream_set_getp
stream_set_getp-Reads at s w =
    (tt, record s { getp = if leb at s.endp then at else s.endp }, refl, ground arith)
