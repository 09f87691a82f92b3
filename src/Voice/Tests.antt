-- ===== src/Voice/Tests.antt =====
-- The voice bot at concrete inputs.
use aura_new_live_server.Prelude.{
  ◌++◌, none, Text, ℕ, ◌≤◌, ◌≡◌, refl, inl, inr, String, true, false, some, [], ◌∷◌, List, length,
  any, keep, map, nat_eq, string_eq, list_eq, get, sort_by, place, arith,
}
use aura_new_live_server.Voice.Conversation.{update_conversation_history}
use aura_new_live_server.Voice.Turns
use aura_new_live_server.Voice.Screens.{ScreenCapture, no_screens}
use aura_new_live_server.Voice.Captures
use aura_new_live_server.Voice.Speaking.{
  Coaching, SpeakingStats, StatsRow, StatsTable, has_hosts, participant_stats,
  dominant_speaker_alert, stats_round, stats_array, stats_rows, speaking_percent, total_duration,
  dominant_alert, dominant_reset,
}
use aura_new_live_server.Voice.Alerts.{AllHigh, is_alert, stats_rounds, stats_round-stats_rounds}
use aura_new_live_server.Voice.Silence.{new_checker, is_alerted}
use aura_new_live_server.Voice.Silences.{checks, unspoken, checks_once}
use aura_new_live_server.Voice.Wav.{
  write_uint_le, write_eighths_le, create_wav_header, read_wav_header,
}
use aura_new_live_server.Voice.Waves.{create_wav_header-read_wav_header}
use aura_new_live_server.Voice.Diagrams.{
  erd, context_of, create_empty_diagram_contexts, build_focused_transcript,
}
use aura_new_live_server.Voice.Statements.{
  Utterance, IsUnique, hear, statement_of, matters, none_if_empty, hear-build_focused_transcript,
}

-- A question, its answer and the query of a host two minutes later.
abbrev two_happenings : List (ℕ × Turns.Happening)
two_happenings =
    (1000, Turns.replies (65 ∷ 66 ∷ 67 ∷ []) (68 ∷ 69 ∷ 70 ∷ []) (49 ∷ []))
    ∷ (121000, Turns.hosts_query (67 ∷ []) (50 ∷ []))
    ∷ []

run-update_example :
    let history =
      update_conversation_history
        (71 ∷ 72 ∷ 73 ∷ [])
        (74 ∷ 75 ∷ 76 ∷ [])
        (49 ∷ [])
        250000
        (Turns.run two_happenings []) in
    (length history ≤ 60) × Turns.IsOrdered 0 history 250000 × Turns.AreRecent 250000 history
run-update_example =
    Turns.run-update two_happenings (71 ∷ 72 ∷ 73 ∷ []) (74 ∷ 75 ∷ 76 ∷ []) (49 ∷ []) 250000
      (omega arith, (omega arith, omega arith))

abbrev a_capture : ScreenCapture
a_capture = record { extracted_text = 65 ∷ 66 ∷ []; capture_index = 1; timestamp = 1000 }

abbrev screen_events : List Captures.Happening
screen_events =
    Captures.captures a_capture 1000 ∷ Captures.clears ∷ Captures.captures a_capture 3000 ∷ []

run-no_screens_example :
    Captures.Shows
      (Captures.after_clearing screen_events [])
      (Captures.run screen_events no_screens)
run-no_screens_example = Captures.run-no_screens screen_events

abbrev spoken : ℕ → SpeakingStats
spoken time = record {
  participant_name = 65 ∷ [];
  speaking_duration_ms = time;
  speaking_count = 1;
  last_spoken_at = 5;
}

abbrev a_room : Coaching
a_room = record {
  host_only_mode = true;
  host_identities = (72 ∷ []) ∷ [];
  participant_speaking_stats = ((49 ∷ []), spoken 1000) ∷ ((50 ∷ []), spoken 9000) ∷ [];
  dominant_alert_sent = false;
}

abbrev row_of : Text → ℕ → ℕ → StatsRow
row_of id time percent = record {
  participant_id = id;
  speaking_duration_ms = time;
  speaking_count = 1;
  speaking_percent_of = percent;
}

abbrev top_row : StatsRow
top_row = row_of (50 ∷ []) 9000 90

abbrev both_rows : List StatsRow
both_rows = top_row ∷ row_of (49 ∷ []) 1000 10 ∷ []

a_room_alert :
    (stats_round a_room).1 ≡ participant_stats both_rows 10000 ∷ dominant_speaker_alert top_row ∷ []
unfolding stats_round has_hosts stats_array stats_rows total_duration speaking_percent sort_by place
    dominant_alert dominant_reset
a_room_alert = refl

-- The next round has the same statistics, and the one after it the reverse.
abbrev later_tables : List StatsTable
later_tables =
    a_room.participant_speaking_stats
    ∷ (((49 ∷ []), spoken 9000) ∷ ((50 ∷ []), spoken 1000) ∷ [])
    ∷ []

later_tables-AllHigh : AllHigh later_tables
unfolding stats_array stats_rows total_duration speaking_percent sort_by place
later_tables-AllHigh = (omega arith, (omega arith, tt))

stats_round-stats_rounds_example :
    any is_alert (stats_rounds later_tables (stats_round a_room).0).1 ≡ false
stats_round-stats_rounds_example =
    stats_round-stats_rounds a_room both_rows 10000 top_row [] later_tables a_room_alert
      later_tables-AllHigh

checks_once_example :
    (checks
      (65 ∷ [])
      ((1000, 0)
        ∷ (unspoken (16000 ∷ 31000 ∷ 46000 ∷ [])
            ++ (61000, 0) ∷ (76000, 0) ∷ (181000, 121000) ∷ []))
      new_checker).1
    ≡ 60000 ∷ []
unfolding is_alerted get
checks_once_example =
    checks_once (65 ∷ []) 1000 61000 (16000 ∷ 31000 ∷ 46000 ∷ [])
      ((76000, 0) ∷ (181000, 121000) ∷ []) new_checker refl refl (omega arith)
      (omega arith, (omega arith, (omega arith, tt))) (omega arith)
      (inl refl, (inr (omega arith), tt))

-- A block of 65535.75 bytes is above the limit.
wide_block : create_wav_header 0 1 54 9709 ≡ none
unfolding create_wav_header write_uint_le write_eighths_le
wide_block = refl

create_wav_header-read_wav_header_example :
    (bytes : List ℕ) × (create_wav_header 32000 16000 1 16 ≡ some bytes)
    × (length bytes ≡ 44)
    × (read_wav_header bytes
        ≡ some (record {
          riff_size = 32036;
          audio_format = 1;
          num_channels = 1;
          sample_rate = 16000;
          byte_rate = 32000;
          block_align = 2;
          bits_per_sample = 16;
          data_size = 32000;
        }))
create_wav_header-read_wav_header_example =
    create_wav_header-read_wav_header 32000 16000 1 16 (record {
      fits_data = omega arith;
      fits_channels = omega arith;
      fits_rate = omega arith;
      fits_byte_rate = omega arith;
      fits_align = omega arith;
      fits_bits = omega arith;
    })

abbrev two_utterances : List Utterance
two_utterances =
    record { text = "the entity"; speaker = "a"; now = 1 }
    ∷ record { text = "hello"; speaker = "b"; now = 2 }
    ∷ []

hear-build_focused_transcript_example :
    let c = context_of erd (hear (λ s. s) two_utterances create_empty_diagram_contexts) in
    let kept = map (statement_of (λ s. s) erd) (keep (matters (λ s. s) erd) two_utterances) in
    (c.statements ≡ kept) × IsUnique c.keywords × (build_focused_transcript c ≡ none_if_empty kept)
hear-build_focused_transcript_example =
    hear-build_focused_transcript (λ (s : String). s) erd two_utterances
      (omega arith, (omega arith, tt))
