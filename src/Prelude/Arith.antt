-- ===== src/Prelude/Arith.antt =====
-- Order facts about products and quotients of the native numbers.
use Prim.Native.Nat.{ℕ, ◌*◌, ◌/◌, ◌≤◌, ◌<◌}
use mathlib.Core.Path.{◌≡◌}
use mathlib.Core.Option.{some}
use native.Mathlib.Nat.{div-le_self, le-div_iff_mul-le, div-mul-le_self, le_trans}
use native.Mathlib.Omega.{arith}

pub mul_mono : (a b c d : ℕ) → a ≤ b → c ≤ d → a * c ≤ b * d
mul_mono a b c d h k = grind arith

pub div-le : (n d : ℕ) → n / d ≤ n
div-le n d = div-le_self n d

pub div_mono : (a b d : ℕ) → 0 < d → a ≤ b → a / d ≤ b / d
div_mono a b d p h = (le-div_iff_mul-le p).1 (le_trans (div-mul-le_self a d) h)

pub div_antitone : (n b c : ℕ) → 0 < b → b ≤ c → n / c ≤ n / b
div_antitone n b c p h =
    (le-div_iff_mul-le p).1
      (le_trans (mul_mono (n / c) (n / c) b c (omega arith) h) (div-mul-le_self n c))

pub some-eq : {s t : ℕ} → some s ≡ some t → s ≡ t
some-eq p = ground arith
