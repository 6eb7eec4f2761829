-- ===== src/Checksum.antt =====
-- eigrp/code/eigrp_checksum.c: the Internet checksum of a packet.
mod Verifies
mod Tests
use eigrp.Prelude.{
  ℕ, zero, suc, ◌+◌, ◌-◌, ◌*◌, ◌/◌, ◌%◌, List, [], ◌∷◌, if◌then◌else◌, ◌==◌, u16, u32,
}

-- The loop over the words; a last odd byte is the high one of its word.
unfoldable pub sum_words : ℕ → List ℕ → ℕ
sum_words sum [] = sum
sum_words sum (a ∷ []) = u32 (sum + u16 a * 256)
sum_words sum (a ∷ b ∷ bytes) = sum_words (u32 (sum + (u16 a * 256 + b))) bytes

-- The carries are added back until there is none. Two rounds do for 32 bits.
unfoldable pub fold_carries : ℕ → ℕ → ℕ
fold_carries zero sum = sum
fold_carries (suc fuel) sum =
    let rest = fold_carries fuel (u32 (sum % 65536 + sum / 65536)) in
    if sum / 65536 == 0 then sum else rest

unfoldable pub checksum : List ℕ → ℕ
checksum bytes = u16 (4294967295 - fold_carries 2 (sum_words 0 bytes))
