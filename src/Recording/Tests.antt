-- ===== src/Recording/Tests.antt =====
-- Recordings at concrete inputs.
use aura_new_live_server.Prelude.{nat_eq, string_eq, list_eq}
use aura_new_live_server.Recording.{Recorder, no_recordings, recording_started, recording_stopped}

-- Both starts have been answered.
abbrev first_started : Recorder
first_started = recording_started "r" 1 1000 no_recordings

abbrev both_started : Recorder
both_started = recording_started "r" 2 1500 first_started

abbrev second_stopped : Recorder
second_stopped =
    (recording_stopped "r" (record { egress_id = 2; started_at = 1500 }) 9000 both_started).0
