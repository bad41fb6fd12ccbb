-- ===== src/Wav.antt =====
-- firmware/lib/rt_logic/wav_header.h, wav_header.cpp: reading the header of a clip. A ByteSource is the bytes of the
-- file, of which read_at gives those that there are.
pub mod Bounds
mod Tests
use rotation_target.Common.{
  ℕ, zero, suc, ◌+◌, ◌-◌, ◌*◌, ◌%◌, Bool, true, false, not, ◌&&◌, ◌||◌, Option, none, some, List,
  [], ◌∷◌, length, take, drop, ltb, leb, ◌==◌, if◌then◌else◌,
}
use rotation_target.Common.Text.{Text, codes, text_eq}
use rotation_target.Adpcm.{header_bytes}

-- kMaxAdpcmBlockBytes, kMaxWavChunks
abbrev pub max_adpcm_block_bytes : ℕ
max_adpcm_block_bytes = 512

abbrev pub max_wav_chunks : ℕ
max_wav_chunks = 64

pub data WavFormat : Type 0 where
  pcm16 ima_adpcm : WavFormat

pub record WavInfo : Type 0 where
  pub format : WavFormat
  pub sample_rate : ℕ
  pub channels : ℕ
  pub data_offset : ℕ
  pub data_bytes : ℕ
  pub block_bytes : ℕ
  pub total_samples : ℕ

-- A default-constructed WavInfo.
abbrev pub blank : WavInfo
blank = record {
  format = pcm16;
  sample_rate = 0;
  channels = 0;
  data_offset = 0;
  data_bytes = 0;
  block_bytes = 0;
  total_samples = 0;
}

-- read_le, of all the bytes given
unfoldable pub read_le : Text → ℕ
read_le [] = 0
read_le (c ∷ cs) = c + 256 * read_le cs

-- src.read_at(offset, buffer, n), none where it gives fewer than n bytes
unfoldable pub read_whole : Text → ℕ → ℕ → Option Text
read_whole file offset n =
    let bytes = take n (drop offset file) in if length bytes == n then some bytes else none

-- The value of `n` bytes of a buffer from the byte `i` on.
abbrev pub field_at : Text → ℕ → ℕ → ℕ
field_at bytes i n = read_le (take n (drop i bytes))

-- The checks of a `fmt ` chunk of PCM, with the channels and the rate set.
unfoldable pub pcm_fmt : WavInfo → Option WavInfo
pcm_fmt info =
    if not (info.channels == 1) && not (info.channels == 2)
    then none
    else if info.sample_rate == 0
    then none
    else some (record info { format = pcm16 })

-- The checks of a `fmt ` chunk of IMA ADPCM.
unfoldable pub adpcm_fmt : WavInfo → ℕ → Option WavInfo
adpcm_fmt info block_align =
    if not (info.channels == 1)
    then none
    else if leb block_align header_bytes || ltb max_adpcm_block_bytes block_align
    then none
    else if info.sample_rate == 0
    then none
    else some (record info { format = ima_adpcm; block_bytes = block_align })

-- The branch of a `fmt ` chunk, behind its reads.
unfoldable pub read_fmt : WavInfo → Text → Option WavInfo
read_fmt info fmt =
    let described = record info { channels = field_at fmt 2 2; sample_rate = field_at fmt 4 4 } in
    if field_at fmt 0 2 == 1 && field_at fmt 14 2 == 16
    then pcm_fmt described
    else if field_at fmt 0 2 == 17 && field_at fmt 14 2 == 4
    then adpcm_fmt described (field_at fmt 12 2)
    else none

-- The branch of a `fact` chunk: a chunk that is too short is passed over.
unfoldable pub read_fact : Text → ℕ → ℕ → WavInfo → WavInfo
read_fact file cursor size info = elim (read_whole file cursor 4) [
  | none ↦ info
  | some fact ↦ if leb 4 size then record info { total_samples = read_le fact } else info
]

-- The branch of the `data` chunk.
unfoldable pub read_data : Text → ℕ → ℕ → Bool → WavInfo → Option WavInfo
read_data file cursor size have_fmt info =
    let available = length file - cursor in
    let bytes = if ltb available (size + size % 2) then available else size in
    if not have_fmt
    then none
    else if ltb 0 bytes
    then some (record info { data_offset = cursor; data_bytes = bytes })
    else none

-- What a chunk comes to: the parse is over, or goes on.
pub data Step : Type 0 where
  over : Option WavInfo → Step
  goes : Bool → WavInfo → Step

-- The branch of a `fmt ` chunk.
unfoldable pub fmt_step : Text → ℕ → ℕ → WavInfo → Step
fmt_step file cursor size info =
    if ltb size 16 then over none else elim (read_whole file cursor 16) [
      | none ↦ over none
      | some fmt ↦ elim (read_fmt info fmt) [ none ↦ over none | some info' ↦ goes true info' ]
    ]

-- The branches of one turn, by the chunk's name.
unfoldable pub chunk_step : Text → ℕ → Text → ℕ → Bool → WavInfo → Step
chunk_step file cursor name size have_fmt info =
    if text_eq name (codes "fmt ")
    then fmt_step file cursor size info
    else if text_eq name (codes "fact")
    then goes have_fmt (read_fact file cursor size info)
    else if text_eq name (codes "data")
    then over (read_data file cursor size have_fmt info)
    else goes have_fmt info

-- The loop of parse_wav_header.
unfoldable pub walk : ℕ → Text → ℕ → Bool → WavInfo → Option WavInfo
walk zero file cursor have_fmt info = none
walk (suc turns) file cursor have_fmt info = elim (read_whole file cursor 8) [
  | none ↦ none
  | some header ↦
      let size = field_at header 4 4 in
      elim (chunk_step file (cursor + 8) (take 4 header) size have_fmt info) [
        | over r ↦ r
        | goes have_fmt' info' ↦ elim (ltb (length file - (cursor + 8)) (size + size % 2)) [
          | true ↦ none
          | false ↦ walk turns file (cursor + 8 + (size + size % 2)) have_fmt' info'
        ]
      ]
]

-- parse_wav_header
unfoldable pub parse_wav_header : Text → Option WavInfo
parse_wav_header file = elim (read_whole file 0 12) [
  | none ↦ none
  | some riff ↦
      if not (text_eq (take 4 riff) (codes "RIFF")) || not (text_eq (drop 8 riff) (codes "WAVE"))
      then none
      else walk max_wav_chunks file 12 false blank
]
