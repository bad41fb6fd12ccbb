-- ===== src/Adpcm.antt =====
-- firmware/lib/rt_logic/ima_adpcm.h, ima_adpcm.cpp: a block of IMA ADPCM. Bytes are numbers below 256. A
-- read outside one of the tables, which C++ leaves undefined, is none.
pub mod Blocks
mod Tests
use rotation_target.Common.{
  ℕ, zero, suc, ◌+◌, ◌-◌, ◌*◌, ◌/◌, ◌%◌, Bool, true, false, ◌||◌, Option, none, some, List, [], ◌∷◌,
  length, get_elem?, ltb, leb, ◌==◌, if◌then◌else◌,
}
use rotation_target.Common.Int.{ℤ, pos, negsuc, ◌+ℤ◌, ◌-ℤ◌, ltb_ℤ}

abbrev pub header_bytes : ℕ
header_bytes = 4

abbrev pub max_index : ℕ
max_index = 88

-- ima_adpcm_samples_per_block
unfoldable pub samples_per_block : ℕ → ℕ
samples_per_block block_bytes =
    if ltb block_bytes header_bytes then 0 else 1 + (block_bytes - header_bytes) * 2

-- kStepTable
abbrev pub step_table : List ℕ
step_table =
    7 ∷ 8 ∷ 9 ∷ 10 ∷ 11 ∷ 12 ∷ 13 ∷ 14 ∷ 16 ∷ 17 ∷ 19 ∷ 21 ∷ 23 ∷ 25 ∷ 28 ∷ 31 ∷ 34 ∷ 37 ∷ 41 ∷ 45
    ∷ 50 ∷ 55 ∷ 60 ∷ 66 ∷ 73 ∷ 80 ∷ 88 ∷ 97 ∷ 107 ∷ 118 ∷ 130 ∷ 143 ∷ 157 ∷ 173 ∷ 190 ∷ 209 ∷ 230
    ∷ 253 ∷ 279 ∷ 307 ∷ 337 ∷ 371 ∷ 408 ∷ 449 ∷ 494 ∷ 544 ∷ 598 ∷ 658 ∷ 724 ∷ 796 ∷ 876 ∷ 963 ∷ 1060
    ∷ 1166 ∷ 1282 ∷ 1411 ∷ 1552 ∷ 1707 ∷ 1878 ∷ 2066 ∷ 2272 ∷ 2499 ∷ 2749 ∷ 3024 ∷ 3327 ∷ 3660
    ∷ 4026 ∷ 4428 ∷ 4871 ∷ 5358 ∷ 5894 ∷ 6484 ∷ 7132 ∷ 7845 ∷ 8630 ∷ 9493 ∷ 10442 ∷ 11487 ∷ 12635
    ∷ 13899 ∷ 15289 ∷ 16818 ∷ 18500 ∷ 20350 ∷ 22385 ∷ 24623 ∷ 27086 ∷ 29794 ∷ 32767 ∷ []

-- kIndexTable
abbrev pub index_table : List ℤ
index_table =
    negsuc 0
    ∷ negsuc 0
    ∷ negsuc 0
    ∷ negsuc 0
    ∷ pos 2
    ∷ pos 4
    ∷ pos 6
    ∷ pos 8
    ∷ negsuc 0
    ∷ negsuc 0
    ∷ negsuc 0
    ∷ negsuc 0
    ∷ pos 2
    ∷ pos 4
    ∷ pos 6
    ∷ pos 8
    ∷ []

-- clamp16
unfoldable pub clamp16 : ℤ → ℤ
clamp16 value =
    if ltb_ℤ (pos 32767) value
    then pos 32767
    else if ltb_ℤ value (negsuc 32767)
    then negsuc 32767
    else value

-- The predictor in the header, a signed number of two bytes.
unfoldable pub first_predictor : ℕ → ℕ → ℤ
first_predictor low high =
    let word = low + 256 * high in if ltb word 32768 then pos word else pos word -ℤ pos 65536

-- The index after one code, clamped to the table.
unfoldable pub next_index : ℕ → ℤ → ℕ
next_index index (pos n) = if ltb max_index (index + n) then max_index else index + n
next_index index (negsuc n) = index - suc n

-- The predictor after one code.
unfoldable pub next_predictor : ℤ → ℕ → ℕ → ℤ
next_predictor predictor step code =
    let delta = pos ((2 * (code % 8) + 1) * step / 8) in
    clamp16 (if leb 8 code then predictor -ℤ delta else predictor +ℤ delta)

-- The two codes of each byte, the low one first.
unfoldable pub codes_of : List ℕ → List ℕ
codes_of [] = []
codes_of (b ∷ bs) = b % 16 ∷ b / 16 ∷ codes_of bs

-- Both loops, with the room that is left.
unfoldable pub decode_codes : ℕ → ℤ → ℕ → List ℕ → Option (List ℤ)
decode_codes zero predictor index codes = some []
decode_codes (suc room) predictor index [] = some []
decode_codes (suc room) predictor index (code ∷ codes) = elim (get_elem? step_table index) [
  | none ↦ none
  | some step ↦ elim (get_elem? index_table code) [
    | none ↦ none
    | some move ↦
        let sample = next_predictor predictor step code in
        elim (decode_codes room sample (next_index index move) codes) [
          | none ↦ none
          | some samples ↦ some (sample ∷ samples)
        ]
  ]
]

-- decode_ima_adpcm_block, the samples that are written
unfoldable pub decode_block : List ℕ → ℕ → Option (List ℤ)
decode_block (low ∷ high ∷ stored ∷ reserved ∷ bytes) (suc room) =
    let predictor = first_predictor low high in
    let index = if ltb max_index stored then max_index else stored in
    elim (decode_codes room predictor index (codes_of bytes)) [
      | none ↦ none
      | some samples ↦ some (predictor ∷ samples)
    ]
decode_block block room = some []
