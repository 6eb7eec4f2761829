-- ===== src/Stream/Monad.antt =====
-- The state of a byte stream (eigrp_stream_t in eigrp/code/eigrp_stream.h) and the monad of the
-- operations that read and write one.
use eigrp.Prelude.{ℕ, Option, none, some, List}

pub record Stream : Type 0 where
  pub block : List ℕ  -- the whole block, `size` bytes
  pub size : ℕ
  pub getp : ℕ  -- the next byte to read
  pub endp : ℕ  -- the end of the bytes that have been written

-- `none` is a fault, an access outside of the block.
abbrev pub M : Type 0 → Type 0
M A = Stream → Option (A × Stream)

abbrev pub pure : {A : Type 0} → A → M A
pure a s = some (a, s)

infixl 5 ◌>>=◌ ◌>>◌
abbrev pub ◌>>=◌ : {A B : Type 0} → M A → (A → M B) → M B
◌>>=◌ m f s = elim (m s) [ none ↦ none | some (a, t) ↦ f a t ]

abbrev pub ◌>>◌ : {A B : Type 0} → M A → M B → M B
m >> k = m >>= λ _. k
