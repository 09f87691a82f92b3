-- ===== src/Voice/Speaking.antt =====
-- livekit/voice-bot.service.ts: who speaks, and what the hosts are told of it.
use aura_new_live_server.Prelude.{
  Text, ℕ, ◌+◌, ◌*◌, ◌/◌, Bool, true, false, not, ◌&&◌, none, some, List, [], ◌∷◌, length, leb, ltb,
  ◌==◌, if◌then◌else◌, nat_eq, list_eq, Table, get, set, sort_by, place,
}

-- `ParticipantSpeakingStats`
pub record SpeakingStats : Type 0 where
  pub participant_name : Text
  pub speaking_duration_ms : ℕ
  pub speaking_count : ℕ
  pub last_spoken_at : ℕ

abbrev pub StatsTable : Type 0
StatsTable = Table Text SpeakingStats

-- `updateParticipantSpeakingStats`
unfoldable pub update_participant_speaking_stats : Text → Text → ℕ → ℕ → StatsTable → StatsTable
update_participant_speaking_stats id name duration_ms now stats = elim (get id stats) [
  | some existing ↦
      set id
        (record existing {
          speaking_duration_ms = existing.speaking_duration_ms + duration_ms;
          speaking_count = existing.speaking_count + 1;
          last_spoken_at = now;
        })
        stats
  | none ↦
      set id
        (record {
          participant_name = name;
          speaking_duration_ms = duration_ms;
          speaking_count = 1;
          last_spoken_at = now;
        })
        stats
]

unfoldable pub total_duration : StatsTable → ℕ
total_duration [] = 0
total_duration ((id, s) ∷ rest) = s.speaking_duration_ms + total_duration rest

-- `Math.round(ratio * 100)`: the share in hundredths, halves rounded up
unfoldable pub speaking_percent : ℕ → ℕ → ℕ
speaking_percent duration total = if total == 0 then 0 else (200 * duration + total) / (2 * total)

-- A row of the statistics, with its ratio in hundredths.
pub record StatsRow : Type 0 where
  pub participant_id : Text
  pub speaking_duration_ms : ℕ
  pub speaking_count : ℕ
  pub speaking_percent_of : ℕ

unfoldable pub stats_rows : ℕ → StatsTable → List StatsRow
unfolding speaking_percent
stats_rows total [] = []
stats_rows total ((id, s) ∷ rest) =
    record {
      participant_id = id;
      speaking_duration_ms = s.speaking_duration_ms;
      speaking_count = s.speaking_count;
      speaking_percent_of = speaking_percent s.speaking_duration_ms total;
    }
    ∷ stats_rows total rest

-- `(a, b) => b.speakingDurationMs - a.speakingDurationMs`
abbrev pub speaks_less : StatsRow → StatsRow → Bool
speaks_less a b = ltb a.speaking_duration_ms b.speaking_duration_ms

unfoldable pub stats_array : StatsTable → List StatsRow
unfolding stats_rows total_duration sort_by place
stats_array stats = sort_by speaks_less (stats_rows (total_duration stats) stats)

-- What is sent to the hosts.
pub data Notice : Type 0 where
  participant_stats : List StatsRow → (total_duration_ms : ℕ) → Notice
  dominant_speaker_alert : StatsRow → Notice

-- The fields of a room for its hosts.
pub record Coaching : Type 0 where
  pub host_only_mode : Bool
  pub host_identities : List Text
  pub participant_speaking_stats : StatsTable
  pub dominant_alert_sent : Bool

-- `hostOnlyMode` and a host
unfoldable pub has_hosts : Coaching → Bool
has_hosts c = c.host_only_mode && ltb 0 (length c.host_identities)

-- The alert for the first of two rows at least, where it is not sent yet; the second result is
-- `dominantAlertSent` after it.
unfoldable pub dominant_alert : List StatsRow → Bool → List Notice × Bool
dominant_alert (top ∷ next ∷ rest) false =
    if leb 60 top.speaking_percent_of then (dominant_speaker_alert top ∷ [], true) else ([], false)
dominant_alert rows sent = ([], sent)

-- The reset below the half.
unfoldable pub dominant_reset : List StatsRow → Bool → Bool
dominant_reset (top ∷ next ∷ rest) true = not (ltb top.speaking_percent_of 50)
dominant_reset rows sent = sent

-- A round of `startSpeakingStatsChecker`, where what is sent arrives
unfoldable pub stats_round : Coaching → Coaching × List Notice
unfolding has_hosts dominant_alert dominant_reset stats_array total_duration
stats_round c =
    let stats = c.participant_speaking_stats in
    let rows = stats_array stats in
    let alerts = dominant_alert rows c.dominant_alert_sent in
    if has_hosts c && ltb 0 (length stats)
    then (
      record c { dominant_alert_sent = dominant_reset rows alerts.1 },
      participant_stats rows (total_duration stats) ∷ alerts.0,
    )
    else (c, [])
