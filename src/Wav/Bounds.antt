-- ===== src/Wav/Bounds.antt =====
-- firmware/lib/rt_logic/wav_header.cpp: what the player may rely on of a header that is accepted.
use rotation_target.Common.{
  ℕ, zero, suc, ◌≡◌, ◌≤◌, ◌<◌, ◌⊎◌, ◌+◌, ◌-◌, ◌%◌, refl, Bool, true, false, not, ◌||◌, ◌&&◌, Option,
  some, [], ◌∷◌, length, take, drop, ltb, leb, ◌==◌, arith, Bool-cases, Option-cases, inl, inr,
  length-drop,
}
use mathlib.Core.Path.{subst}
use rotation_target.Common.Text.{Text, codes, text_eq}
use rotation_target.Adpcm.{header_bytes}
use rotation_target.Wav.{
  WavFormat, pcm16, ima_adpcm, WavInfo, max_adpcm_block_bytes, max_wav_chunks, blank, read_whole,
  field_at, pcm_fmt, adpcm_fmt, read_fmt, read_fact, read_data, Step, over, goes, fmt_step,
  chunk_step, walk, parse_wav_header,
}

-- The channels and the block that the format has.
abbrev pub Fits : WavFormat → ℕ → ℕ → Type 0
Fits pcm16 channels block_bytes = (1 ≤ channels) × (channels ≤ 2)
Fits ima_adpcm channels block_bytes =
    (channels ≡ 1) × (header_bytes < block_bytes) × (block_bytes ≤ max_adpcm_block_bytes)

-- A description that can be played.
abbrev pub Sound : WavInfo → Type 0
Sound info = (1 ≤ info.sample_rate) × Fits info.format info.channels info.block_bytes

-- Samples that the file has.
abbrev pub Playable : Text → WavInfo → Type 0
Playable file info =
    Sound info × (1 ≤ info.data_bytes) × (info.data_offset + info.data_bytes ≤ length file)

pcm_fmt-Sound : (info r : WavInfo) → pcm_fmt info ≡ some r → Sound r
unfolding pcm_fmt
pcm_fmt-Sound info r h = ground (arith, h)

adpcm_fmt-Sound : (info : WavInfo) (b : ℕ) (r : WavInfo) → adpcm_fmt info b ≡ some r → Sound r
unfolding adpcm_fmt
adpcm_fmt-Sound info b r h = ground (arith, h)

read_fmt-Sound : (info : WavInfo) (fmt : Text) (r : WavInfo) → read_fmt info fmt ≡ some r → Sound r
unfolding read_fmt
read_fmt-Sound info fmt r =
    let d : WavInfo = record info { channels = field_at fmt 2 2; sample_rate = field_at fmt 4 4 } in
    elim (Bool-cases (field_at fmt 0 2 == 1 && field_at fmt 14 2 == 16)) [
      | inl e ↦ rw e (pcm_fmt-Sound d r)
      | inr e ↦ rw e (elim (Bool-cases (field_at fmt 0 2 == 17 && field_at fmt 14 2 == 4)) [
        | inl n ↦ rw n (adpcm_fmt-Sound d (field_at fmt 12 2) r)
        | inr n ↦ rw n (λ h. ground (arith, h))
      ])
    ]

read_fact-Sound :
    (file : Text) (cursor size : ℕ) (info : WavInfo)
    → Sound info
    → Sound (read_fact file cursor size info)
unfolding read_fact
read_fact-Sound file cursor size info s = elim (Option-cases (read_whole file cursor 4)) [
  | inl e ↦ rw (e, read_fact) s
  | inr (fact, e) ↦
      rw (e, read_fact) (elim (Bool-cases (leb 4 size)) [ inl n ↦ rw n s | inr n ↦ rw n s ])
]

read_data-Playable :
    (file : Text) (cursor size : ℕ) (have_fmt : Bool) (info r : WavInfo)
    → cursor ≤ length file
    → (have_fmt ≡ true → Sound info)
    → read_data file cursor size have_fmt info ≡ some r
    → Playable file r
unfolding read_data
read_data-Playable file cursor size false info r le s h = ground (arith, h)
read_data-Playable file cursor size true info r le s h = ground (arith, le, h, s refl)

-- A step that is over gives what can be played, and one that goes on has a sound description, if any.
abbrev Good : Text → Step → Type 0
Good file (over r) = (info : WavInfo) → r ≡ some info → Playable file info
Good file (goes have_fmt info) = have_fmt ≡ true → Sound info

fmt_step-Good :
    (file : Text) (cursor size : ℕ) (info : WavInfo) → Good file (fmt_step file cursor size info)
unfolding fmt_step
fmt_step-Good file cursor size info = elim (Bool-cases (ltb size 16)) [
  | inl e ↦ rw e (λ i h. ground (arith, h))
  | inr e ↦ rw e (elim (Option-cases (read_whole file cursor 16)) [
    | inl n ↦ rw n (λ i h. ground (arith, h))
    | inr (fmt, n) ↦ rw n (elim (Option-cases (read_fmt info fmt)) [
      | inl o ↦ rw o (λ i h. ground (arith, h))
      | inr (r, o) ↦ rw o (λ h. read_fmt-Sound info fmt r o)
    ])
  ])
]

chunk_step-Good :
    (file : Text) (cursor : ℕ) (name : Text) (size : ℕ) (have_fmt : Bool) (info : WavInfo)
    → cursor ≤ length file
    → (have_fmt ≡ true → Sound info)
    → Good file (chunk_step file cursor name size have_fmt info)
unfolding chunk_step
chunk_step-Good file cursor name size have_fmt info le s =
    elim (Bool-cases (text_eq name (codes "fmt "))) [
      | inl e ↦ rw e (fmt_step-Good file cursor size info)
      | inr e ↦ rw e (elim (Bool-cases (text_eq name (codes "fact"))) [
        | inl n ↦ rw n (λ h. read_fact-Sound file cursor size info (s h))
        | inr n ↦ rw n (elim (Bool-cases (text_eq name (codes "data"))) [
          | inl o ↦ rw o (λ r h. read_data-Playable file cursor size have_fmt info r le s h)
          | inr o ↦ rw o s
        ])
      ])
    ]

length-take : (n : ℕ) (xs : Text) → length (take n xs) ≤ length xs
length-take zero xs = omega arith
length-take (suc n) [] = omega arith
length-take (suc n) (x ∷ xs) = omega (arith, length-take n xs)

read_whole-there :
    (file : Text) (cursor n : ℕ) (bytes : Text)
    → 1 ≤ n
    → read_whole file cursor n ≡ some bytes
    → cursor + n ≤ length file
unfolding read_whole
read_whole-there file cursor n bytes pos_n h =
    ground (arith, h, pos_n, length-take n (drop cursor file), length-drop cursor file)

step-cases :
    (t : Step)
    → ((r : Option WavInfo) × (t ≡ over r)) ⊎ ((b : Bool) × ((i : WavInfo) × (t ≡ goes b i)))
step-cases (over r) = inl (r, refl)
step-cases (goes b i) = inr (b, (i, refl))

walk-Playable :
    (turns : ℕ) (file : Text) (cursor : ℕ) (have_fmt : Bool) (info r : WavInfo)
    → (have_fmt ≡ true → Sound info)
    → walk turns file cursor have_fmt info ≡ some r
    → Playable file r
unfolding walk
walk-Playable zero file cursor have_fmt info r s = λ h. ground (arith, h)
walk-Playable (suc turns) file cursor have_fmt info r s =
    elim (Option-cases (read_whole file cursor 8)) [
      | inl e ↦ rw (e, walk) (λ h. ground (arith, h))
      | inr (header, e) ↦
          let size = field_at header 4 4 in
          let at = cursor + 8 in
          let t = chunk_step file at (take 4 header) size have_fmt info in
          let good =
            chunk_step-Good file at (take 4 header) size have_fmt info
              (read_whole-there file cursor 8 header (omega arith) e) s in
          rw (e, walk)
            (elim (step-cases t) [
              | inl (o, n) ↦ rw n (λ h. (subst (Good file) n good) r h)
              | inr (b, (i, n)) ↦
                  rw n (elim (Bool-cases (ltb (length file - at) (size + size % 2))) [
                    | inl o ↦ rw o (λ h. ground (arith, h))
                    | inr o ↦ rw o (
                        walk-Playable turns file (at + (size + size % 2)) b i r
                          (subst (Good file) n good))
                  ])
            ])
    ]

-- A header that is accepted names samples that the file has, at least one byte of them, at a rate that is not 0,
-- of 16-bit PCM with one or two channels, or of IMA ADPCM with one channel in blocks of more than 4 and at
-- most 512 bytes.
pub parse_wav_header-Playable :
    (file : Text) (info : WavInfo) → parse_wav_header file ≡ some info → Playable file info
unfolding parse_wav_header
parse_wav_header-Playable file info = elim (Option-cases (read_whole file 0 12)) [
  | inl e ↦ rw (e, parse_wav_header) (λ h. ground (arith, h))
  | inr (riff, e) ↦
      rw (e, parse_wav_header)
        (elim (Bool-cases (
          not (text_eq (take 4 riff) (codes "RIFF"))
          || not (text_eq (drop 8 riff) (codes "WAVE")))) [
            | inl n ↦ rw n (λ h. ground (arith, h))
            | inr n ↦
                rw n
                  (walk-Playable max_wav_chunks file 12 false blank info (λ h. ground (arith, h)))
          ])
]
