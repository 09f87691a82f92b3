-- ===== src/Voice/Waves.antt =====
-- livekit/voice-bot.service.ts: the header of a WAV file is read as it was written.
use aura_new_live_server.Prelude.{
  ℕ, zero, suc, ◌+◌, ◌*◌, ◌/◌, ◌<◌, ◌≤◌, ◌-◌, ◌∙◌, ap, leb, ◌≡◌, refl, true, some, List, ◌++◌,
  length, nat_eq, list_eq, arith,
}
use aura_new_live_server.Voice.Wav.{
  le_bytes, limit, write_eighths_le, write_uint_le, riff_tag, wave_tag, fmt_tag, data_tag,
  create_wav_header, read_le, read_wav_header,
}

read_le-le_bytes : (width n : ℕ) → n < limit width → read_le (le_bytes width n) ≡ n
unfolding read_le le_bytes
read_le-le_bytes zero n h = omega (arith, h)
read_le-le_bytes (suc width) n h =
    omega (arith, read_le-le_bytes width (n / 256) (omega (arith, h)))

write_eighths_le_fits :
    (width eighths : ℕ)
    → eighths ≤ 8 * (limit width - 1)
    → write_eighths_le width eighths ≡ some (le_bytes width (eighths / 8))
unfolding write_eighths_le
write_eighths_le_fits width eighths h =
    let test : leb eighths (8 * (limit width - 1)) ≡ true = ground (arith, h) in rw test refl

write_uint_le_fits :
    (width n : ℕ) → n < limit width → write_uint_le width n ≡ some (le_bytes width n)
unfolding write_uint_le
write_uint_le_fits width n h =
    let whole : 8 * n / 8 ≡ n = omega arith in
    write_eighths_le_fits width (8 * n) (omega (arith, h)) ∙ ap (λ m. some (le_bytes width m)) whole

-- The values that fit in their fields; the two products in eighths.
pub record Fits (data_length sample_rate channels bits_per_sample : ℕ) : Type 0 where
  pub fits_data : 36 + data_length < 4294967296
  pub fits_channels : channels < 65536
  pub fits_rate : sample_rate < 4294967296
  pub fits_byte_rate : sample_rate * channels * bits_per_sample ≤ 8 * 4294967295
  pub fits_align : channels * bits_per_sample ≤ 8 * 65535
  pub fits_bits : bits_per_sample < 65536

module _ (data_length sample_rate channels bits_per_sample : ℕ) where
  -- The bytes of a header whose values fit.
  abbrev header : List ℕ
  header =
      riff_tag
      ++ (le_bytes 4 (36 + data_length)
          ++ (wave_tag
              ++ (fmt_tag
                  ++ (le_bytes 4 16
                      ++ (le_bytes 2 1
                          ++ (le_bytes 2 channels
                              ++ (le_bytes 4 sample_rate
                                  ++ (le_bytes 4 (sample_rate * channels * bits_per_sample / 8)
                                      ++ (le_bytes 2 (channels * bits_per_sample / 8)
                                          ++ (le_bytes 2 bits_per_sample
                                              ++ (data_tag ++ le_bytes 4 data_length)))))))))))

  create_wav_header_made :
      Fits data_length sample_rate channels bits_per_sample
      → create_wav_header data_length sample_rate channels bits_per_sample ≡ some header
  unfolding create_wav_header
  create_wav_header_made f =
      let size = write_uint_le_fits 4 (36 + data_length) f.fits_data in
      let length_fits = write_uint_le_fits 4 data_length (omega (arith, f.fits_data)) in
      let sixteen = write_uint_le_fits 4 16 (omega arith) in
      let one = write_uint_le_fits 2 1 (omega arith) in
      let count = write_uint_le_fits 2 channels f.fits_channels in
      let rate = write_uint_le_fits 4 sample_rate f.fits_rate in
      let byte_rate =
        write_eighths_le_fits 4 (sample_rate * channels * bits_per_sample) f.fits_byte_rate in
      let align = write_eighths_le_fits 2 (channels * bits_per_sample) f.fits_align in
      let bits = write_uint_le_fits 2 bits_per_sample f.fits_bits in
      rw (size, create_wav_header)
        (rw sixteen
          (rw one (rw count (rw rate (rw byte_rate (rw align (rw bits (rw length_fits refl))))))))

  -- A header is made whenever none of its values, before a fraction is dropped, exceeds the limit
  -- of its field; it has 44 bytes, and a reader of such headers reads the values that it was made
  -- of, the byte rate and the block size without their fractions.
  pub create_wav_header-read_wav_header :
      Fits data_length sample_rate channels bits_per_sample
      → (bytes : List ℕ) × (create_wav_header data_length sample_rate channels bits_per_sample
          ≡ some bytes)
        × (length bytes ≡ 44)
        × (read_wav_header bytes
            ≡ some (record {
              riff_size = 36 + data_length;
              audio_format = 1;
              num_channels = channels;
              sample_rate = sample_rate;
              byte_rate = sample_rate * channels * bits_per_sample / 8;
              block_align = channels * bits_per_sample / 8;
              bits_per_sample = bits_per_sample;
              data_size = data_length;
            }))
  unfolding read_wav_header le_bytes read_le
  create_wav_header-read_wav_header f =
      let size = read_le-le_bytes 4 (36 + data_length) f.fits_data in
      let count = read_le-le_bytes 2 channels f.fits_channels in
      let rate = read_le-le_bytes 4 sample_rate f.fits_rate in
      let bytes =
        read_le-le_bytes 4 (sample_rate * channels * bits_per_sample / 8)
          (omega (arith, f.fits_byte_rate)) in
      let align =
        read_le-le_bytes 2 (channels * bits_per_sample / 8) (omega (arith, f.fits_align)) in
      let bits = read_le-le_bytes 2 bits_per_sample f.fits_bits in
      let last = read_le-le_bytes 4 data_length (omega (arith, f.fits_data)) in
      (
        header,
        create_wav_header_made f,
        refl,
        λ i. some (record {
          riff_size = size i;
          audio_format = 1;
          num_channels = count i;
          sample_rate = rate i;
          byte_rate = bytes i;
          block_align = align i;
          bits_per_sample = bits i;
          data_size = last i;
        }),
      )
