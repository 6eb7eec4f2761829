-- ===== src/Checksum/Tests.antt =====
-- The checksum at concrete values.
use eigrp.Prelude.{◌≡◌, ◌-◌, refl, [], ◌∷◌, ◌/◌, ◌%◌, arith}
use eigrp.Checksum.{checksum, sum_words, fold_carries}
use eigrp.Checksum.Verifies.{words, checksum_verifies}

-- The example of RFC 1071: 0001 f203 f4f5 f6f7
rfc_example : checksum (0 ∷ 1 ∷ 242 ∷ 3 ∷ 244 ∷ 245 ∷ 246 ∷ 247 ∷ []) ≡ 65535 - 56818
unfolding checksum sum_words fold_carries
rfc_example = refl

-- Version 2, UPDATE, the field of the checksum, and an odd byte of flags
checksum_verifies_example :
    checksum (
      2
      ∷ 1
      ∷ checksum (2 ∷ 1 ∷ 0 ∷ 0 ∷ 8 ∷ []) / 256
      ∷ checksum (2 ∷ 1 ∷ 0 ∷ 0 ∷ 8 ∷ []) % 256
      ∷ 8
      ∷ [])
    ≡ 0
unfolding words
checksum_verifies_example =
    checksum_verifies (2 ∷ 1 ∷ []) (8 ∷ []) tt (ground arith) (omega arith) (omega arith)
