-- ===== src/Recording.antt =====
-- recording/recording.service.ts: the recordings of the rooms on the recording server.
pub mod Metadata
pub mod Overlaps
mod Tests
use aura_new_live_server.Prelude.{
  ℕ, ◌-◌, ◌/◌, String, Bool, true, false, Option, none, some, List, [], ◌∷◌, ◌++◌, keep, ◌==◌,
  if◌then◌else◌, nat_eq, string_eq, Table, get, has, set, delete,
}

-- A value of `activeRecordings`
pub record Recording : Type 0 where
  pub egress_id : ℕ
  pub started_at : ℕ

-- The service, and the recordings that run on the server, which the service only starts and stops.
pub record Recorder : Type 0 where
  pub active_recordings : Table String Recording
  pub running : List ℕ

abbrev pub no_recordings : Recorder
no_recordings = record { active_recordings = []; running = [] }

-- `startRecording`, until the server is called: false where it throws
unfoldable pub start_recording : String → Recorder → Bool
start_recording room r = if has room r.active_recordings then false else true

-- The server has started a recording, and its answer has arrived. If it cannot, nothing changes.
unfoldable pub recording_started : String → ℕ → ℕ → Recorder → Recorder
recording_started room egress_id now r = record {
  active_recordings =
      set room (record { egress_id = egress_id; started_at = now }) r.active_recordings;
  running = r.running ++ egress_id ∷ [];
}

-- `stopRecording`, until the server is called: the recording, none where it throws
unfoldable pub stop_recording : String → Recorder → Option Recording
stop_recording room r = get room r.active_recordings

-- The result of a recording that was stopped.
pub record RecordingResult : Type 0 where
  pub egress_id : ℕ
  pub duration : ℕ

-- The server has stopped it.
unfoldable pub recording_stopped : String → Recording → ℕ → Recorder → Recorder × RecordingResult
unfolding keep
recording_stopped room recording now r = (
  record {
    active_recordings = delete room r.active_recordings;
    running = keep (λ id. if id == recording.egress_id then false else true) r.running;
  },
  record { egress_id = recording.egress_id; duration = (now - recording.started_at) / 1000 },
)

-- The server has failed to stop it: the call throws.
unfoldable pub stop_failed : String → Recorder → Recorder
stop_failed room r = record r { active_recordings = delete room r.active_recordings }

-- `getRecordingStatus`: the identifier, the start and the duration
unfoldable pub get_recording_status : String → ℕ → Recorder → Option (ℕ × ℕ × ℕ)
get_recording_status room now r = elim (get room r.active_recordings) [
  | none ↦ none
  | some recording ↦
      some (recording.egress_id, recording.started_at, (now - recording.started_at) / 1000)
]

-- `isRecording`
abbrev pub is_recording : String → Recorder → Bool
is_recording room r = has room r.active_recordings
