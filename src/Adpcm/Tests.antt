-- ===== src/Adpcm/Tests.antt =====
-- A block of one encoded byte, in a buffer with room for more.
use rotation_target.Common.{◌≡◌, refl, some, List, [], ◌∷◌, length, All, arith}
use rotation_target.Common.Int.{ℤ, pos, ◌-ℤ◌, ◌+ℤ◌}
use rotation_target.Adpcm.{
  decode_block, decode_codes, codes_of, next_predictor, next_index, clamp16, first_predictor,
  samples_per_block,
}
use rotation_target.Adpcm.Blocks.{InInt16, least, decode_block-Writes}

block : decode_block (100 ∷ 0 ∷ 0 ∷ 0 ∷ 143 ∷ []) 9 ≡ some (pos 100 ∷ pos 87 ∷ pos 85 ∷ [])
unfolding decode_block decode_codes codes_of next_predictor next_index clamp16 first_predictor ◌-ℤ◌
    ◌+ℤ◌
block = refl

decode_block-Writes_example :
    (samples : List ℤ) × (decode_block (100 ∷ 0 ∷ 200 ∷ 0 ∷ 143 ∷ []) 2 ≡ some samples)
    × (length samples ≡ least (samples_per_block 5) 2)
    × All InInt16 samples
decode_block-Writes_example =
    decode_block-Writes (100 ∷ 0 ∷ 200 ∷ 0 ∷ 143 ∷ []) 2
      (omega arith, (omega arith, (omega arith, (omega arith, (omega arith, tt)))))
