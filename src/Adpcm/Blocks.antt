-- ===== src/Adpcm/Blocks.antt =====
-- firmware/lib/rt_logic/ima_adpcm.cpp: every block decodes, within its buffer and the tables.
use rotation_target.Common.{
  ℕ, zero, suc, ◌*◌, ◌≡◌, ◌≤◌, ◌<◌, refl, Option, some, List, [], ◌∷◌, length, get_elem?, All, ltb,
  leb, if◌then◌else◌, arith,
}
use rotation_target.Common.Int.{ℤ, pos, negsuc, ◌≤ℤ◌, ◌-ℤ◌}
use rotation_target.Adpcm.{
  max_index, samples_per_block, step_table, index_table, clamp16, first_predictor, next_index,
  next_predictor, codes_of, decode_codes, decode_block,
}

-- An int16_t.
abbrev pub InInt16 : ℤ → Type 0
InInt16 n = (negsuc 32767 ≤ℤ n) × (n ≤ℤ pos 32767)

abbrev pub least : ℕ → ℕ → ℕ
least a b = if leb a b then a else b

get_elem?-some :
    {A : Type 0} (xs : List A) (i : ℕ) → i < length xs → (x : A) × (get_elem? xs i ≡ some x)
get_elem?-some [] i h = ground (arith, h)
get_elem?-some (x ∷ xs) zero h = (x, refl)
get_elem?-some (x ∷ xs) (suc i) h = get_elem?-some xs i (omega (arith, h))

clamp16-InInt16 : (n : ℤ) → InInt16 (clamp16 n)
unfolding clamp16
clamp16-InInt16 n = ground arith

next_index_bound : (index : ℕ) (move : ℤ) → index ≤ max_index → next_index index move ≤ max_index
unfolding next_index
next_index_bound index (pos n) h = ground (arith, h)
next_index_bound index (negsuc n) h = omega (arith, h)

-- What is written: so many samples, each an int16_t.
abbrev pub Writes : Option (List ℤ) → ℕ → Type 0
Writes result count =
    (samples : List ℤ) × (result ≡ some samples) × (length samples ≡ count) × All InInt16 samples

decode_codes-Writes :
    (room : ℕ) (predictor : ℤ) (index : ℕ) (codes : List ℕ)
    → index ≤ max_index
    → All (λ c. c < 16) codes
    → Writes (decode_codes room predictor index codes) (least room (length codes))
unfolding decode_codes next_predictor
decode_codes-Writes zero predictor index codes h below = ([], refl, ground arith, tt)
decode_codes-Writes (suc room) predictor index [] h below = ([], refl, ground arith, tt)
decode_codes-Writes (suc room) predictor index (code ∷ codes) h below =
    let (step, at_step) = get_elem?-some step_table index (omega (arith, h)) in
    let (move, at_code) = get_elem?-some index_table code (omega (arith, below.0)) in
    let sample = next_predictor predictor step code in
    let (samples, rest, count, fit) =
      decode_codes-Writes room sample (next_index index move) codes (next_index_bound index move h)
        below.1 in
    (
      sample ∷ samples,
      rw (at_step, decode_codes) (rw at_code (rw rest refl)),
      ground (arith, count),
      (clamp16-InInt16 _, fit),
    )

codes_of-below : (bytes : List ℕ) → All (λ b. b < 256) bytes → All (λ c. c < 16) (codes_of bytes)
unfolding codes_of
codes_of-below [] h = tt
codes_of-below (b ∷ bs) h = (omega (arith, h.0), (omega (arith, h.0), codes_of-below bs h.1))

length-codes_of : (bytes : List ℕ) → length (codes_of bytes) ≡ length bytes * 2
unfolding codes_of
length-codes_of [] = refl
length-codes_of (b ∷ bs) = omega (arith, length-codes_of bs)

first_predictor-InInt16 :
    (low high : ℕ) → low < 256 → high < 256 → InInt16 (first_predictor low high)
unfolding first_predictor ◌-ℤ◌
first_predictor-InInt16 low high l h = ground (arith, l, h)

-- Every block of bytes decodes without a read outside the tables, to as many samples as it holds or as
-- there is room for, whichever is less, each in the range of an int16_t.
pub decode_block-Writes :
    (block : List ℕ) (room : ℕ)
    → All (λ b. b < 256) block
    → Writes (decode_block block room) (least (samples_per_block (length block)) room)
unfolding decode_block samples_per_block
decode_block-Writes [] room h = ([], refl, ground arith, tt)
decode_block-Writes (a ∷ []) room h = ([], refl, ground arith, tt)
decode_block-Writes (a ∷ b ∷ []) room h = ([], refl, ground arith, tt)
decode_block-Writes (a ∷ b ∷ c ∷ []) room h = ([], refl, ground arith, tt)
decode_block-Writes (a ∷ b ∷ c ∷ d ∷ bytes) zero h = ([], refl, ground arith, tt)
decode_block-Writes (a ∷ b ∷ c ∷ d ∷ bytes) (suc room) (ha, (hb, (hc, (hd, h)))) =
    let index = if ltb max_index c then max_index else c in
    let (samples, rest, count, fit) =
      decode_codes-Writes room (first_predictor a b) index (codes_of bytes) (ground arith)
        (codes_of-below bytes h) in
    (
      first_predictor a b ∷ samples,
      rw (rest, decode_block) refl,
      ground (arith, count, length-codes_of bytes),
      (first_predictor-InInt16 a b ha hb, fit),
    )
