-- ===== src/Wav/Tests.antt =====
-- A clip of PCM with a chunk between its description and its samples, and clips that are refused.
use rotation_target.Common.{◌≡◌, refl, none, some, [], ◌∷◌, ◌++◌}
use rotation_target.Common.Text.{Text, codes, text_eq}
use rotation_target.Wav.{
  WavInfo, blank, parse_wav_header, walk, read_whole, read_le, chunk_step, fmt_step, read_fmt,
  pcm_fmt, adpcm_fmt, read_data, read_fact,
}
use rotation_target.Wav.Bounds.{Playable, parse_wav_header-Playable}

-- 8000 samples a second, one channel
abbrev fmt_chunk : Text
fmt_chunk =
    codes "fmt "
    ++ (16 ∷ 0 ∷ 0 ∷ 0 ∷ 1 ∷ 0 ∷ 1 ∷ 0 ∷ 64 ∷ 31 ∷ 0 ∷ 0 ∷ 128 ∷ 62 ∷ 0 ∷ 0 ∷ 2 ∷ 0 ∷ 16 ∷ 0 ∷ [])

abbrev opening : Text
opening = codes "RIFF" ++ (0 ∷ 0 ∷ 0 ∷ 0 ∷ codes "WAVE")

-- The data chunk says six bytes where four are left.
abbrev clip : Text
clip =
    opening
    ++ (fmt_chunk
        ++ (codes "LIST"
            ++ (1 ∷ 0 ∷ 0 ∷ 0 ∷ 7 ∷ 0 ∷ (codes "data" ++ (6 ∷ 0 ∷ 0 ∷ 0 ∷ 1 ∷ 2 ∷ 3 ∷ 4 ∷ [])))))

abbrev described : WavInfo
described = record blank { sample_rate = 8000; channels = 1; data_offset = 54; data_bytes = 4 }

parsed : parse_wav_header clip ≡ some described
unfolding parse_wav_header walk read_whole read_le chunk_step fmt_step read_fmt pcm_fmt adpcm_fmt
    read_data read_fact text_eq
parsed = refl

parse_wav_header-Playable_example : Playable clip described
parse_wav_header-Playable_example = parse_wav_header-Playable clip described parsed

no_description : parse_wav_header (opening ++ (codes "data" ++ (2 ∷ 0 ∷ 0 ∷ 0 ∷ 1 ∷ 2 ∷ []))) ≡ none
unfolding parse_wav_header walk read_whole read_le chunk_step fmt_step read_fmt pcm_fmt adpcm_fmt
    read_data read_fact text_eq
no_description = refl
