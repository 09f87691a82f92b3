-- ===== src/Voice/Wav.antt =====
-- livekit/voice-bot.service.ts: the header of a WAV file.
use aura_new_live_server.Prelude.{
  ℕ, zero, suc, ◌+◌, ◌-◌, ◌*◌, ◌/◌, ◌%◌, Bool, ◌&&◌, Option, none, some, List, [], ◌∷◌, ◌++◌, drop,
  leb, ◌==◌, nat_eq, list_eq, list_beq, if◌then◌else◌, ◌>>=◌,
}

-- The bytes of a number, the lowest first.
unfoldable pub le_bytes : ℕ → ℕ → List ℕ
le_bytes zero n = []
le_bytes (suc width) n = (n % 256) ∷ le_bytes width (n / 256)

abbrev pub limit : ℕ → ℕ
limit zero = 1
limit (suc width) = 256 * limit width

-- `writeUInt16LE` and `writeUInt32LE` of a number of eighths, none where they throw: above the
-- highest value, with or without a fraction. Below it a fraction is not written.
unfoldable pub write_eighths_le : ℕ → ℕ → Option (List ℕ)
unfolding le_bytes
write_eighths_le width eighths =
    if leb eighths (8 * (limit width - 1)) then some (le_bytes width (eighths / 8)) else none

-- The same of a whole number
unfoldable pub write_uint_le : ℕ → ℕ → Option (List ℕ)
unfolding write_eighths_le
write_uint_le width n = write_eighths_le width (8 * n)

-- 'RIFF', 'WAVE', 'fmt ' and 'data'
abbrev pub riff_tag : List ℕ
riff_tag = 82 ∷ 73 ∷ 70 ∷ 70 ∷ []

abbrev pub wave_tag : List ℕ
wave_tag = 87 ∷ 65 ∷ 86 ∷ 69 ∷ []

abbrev pub fmt_tag : List ℕ
fmt_tag = 102 ∷ 109 ∷ 116 ∷ 32 ∷ []

abbrev pub data_tag : List ℕ
data_tag = 100 ∷ 97 ∷ 116 ∷ 97 ∷ []

-- `createWavHeader`: `bitsPerSample / 8` may have a fraction, so the two products are in eighths.
unfoldable pub create_wav_header : ℕ → ℕ → ℕ → ℕ → Option (List ℕ)
create_wav_header data_length sample_rate channels bits_per_sample = do
  riff_size ← write_uint_le 4 (36 + data_length)
  fmt_size ← write_uint_le 4 16
  audio_format ← write_uint_le 2 1
  num_channels ← write_uint_le 2 channels
  rate ← write_uint_le 4 sample_rate
  byte_rate ← write_eighths_le 4 (sample_rate * channels * bits_per_sample)
  block_align ← write_eighths_le 2 (channels * bits_per_sample)
  bits ← write_uint_le 2 bits_per_sample
  data_size ← write_uint_le 4 data_length
  some (
      riff_tag
      ++ (riff_size
          ++ (wave_tag
              ++ (fmt_tag
                  ++ (fmt_size
                      ++ (audio_format
                          ++ (num_channels
                              ++ (rate
                                  ++ (byte_rate
                                      ++ (block_align ++ (bits ++ (data_tag ++ data_size))))))))))))

-- The fields of a header, as its format says where they stand.
pub record WavFormat : Type 0 where
  pub riff_size : ℕ
  pub audio_format : ℕ
  pub num_channels : ℕ
  pub sample_rate : ℕ
  pub byte_rate : ℕ
  pub block_align : ℕ
  pub bits_per_sample : ℕ
  pub data_size : ℕ

unfoldable pub take : ℕ → List ℕ → List ℕ
take zero bytes = []
take (suc n) [] = []
take (suc n) (b ∷ bytes) = b ∷ take n bytes

unfoldable pub read_le : List ℕ → ℕ
read_le [] = 0
read_le (b ∷ bytes) = b + 256 * read_le bytes

unfoldable pub field : ℕ → ℕ → List ℕ → ℕ
unfolding read_le take
field offset width bytes = read_le (take width (drop offset bytes))

unfoldable pub has_tag : ℕ → List ℕ → List ℕ → Bool
unfolding take list_beq
has_tag offset tag bytes = take 4 (drop offset bytes) == tag

unfoldable pub read_wav_header : List ℕ → Option WavFormat
unfolding field has_tag
read_wav_header bytes =
    if has_tag 0 riff_tag bytes
      && has_tag 8 wave_tag bytes
      && has_tag 12 fmt_tag bytes
      && field 16 4 bytes == 16
      && has_tag 36 data_tag bytes
    then some (record {
      riff_size = field 4 4 bytes;
      audio_format = field 20 2 bytes;
      num_channels = field 22 2 bytes;
      sample_rate = field 24 4 bytes;
      byte_rate = field 28 4 bytes;
      block_align = field 32 2 bytes;
      bits_per_sample = field 34 2 bytes;
      data_size = field 40 4 bytes;
    })
    else none
