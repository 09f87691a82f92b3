-- ===== src/Voice/Silence.antt =====
-- livekit/voice-bot.service.ts: participants that have not spoken for a while.
use aura_new_live_server.Prelude.{
  Text, ℕ, ◌-◌, Bool, not, ◌&&◌, ◌||◌, Option, none, some, List, [], ◌∷◌, ◌++◌, any, keep, leb, ltb,
  ◌==◌, if◌then◌else◌, starts_with, nat_eq, list_eq, Table, get, has, set,
}

-- The variables of `startSilentParticipantChecker`, with the set in the order of its additions.
pub record Checker : Type 0 where
  pub already_alerted : List Text
  pub participant_join_time : Table Text ℕ

abbrev pub new_checker : Checker
new_checker = record { already_alerted = []; participant_join_time = [] }

abbrev pub silent_threshold_ms : ℕ
silent_threshold_ms = 60000

-- 'ai-bot'
abbrev pub bot_prefix : Text
bot_prefix = 97 ∷ 105 ∷ 45 ∷ 98 ∷ 111 ∷ 116 ∷ []

unfoldable pub is_alerted : Text → Checker → Bool
unfolding any
is_alerted id c = any (λ a. a == id) c.already_alerted

-- The duration that is reported, if it is: `silentDuration`, from the last speech or the time at which
-- the participant was first seen. A time of 0 is no time.
abbrev pub silent_duration : ℕ → ℕ → ℕ → ℕ
silent_duration now last_stt_time join_time =
    now - (if ltb 0 last_stt_time then last_stt_time else join_time)

-- `participantJoinTime`, with the participant
unfoldable pub with_join_time : Text → ℕ → Table Text ℕ → Table Text ℕ
with_join_time id now times = if has id times then times else set id now times

abbrev pub join_time_of : Text → ℕ → Table Text ℕ → ℕ
join_time_of id now times = elim (get id times) [
  | none ↦ now
  | some time ↦ if time == 0 then now else time
]

unfoldable pub reported_duration : Text → ℕ → ℕ → Checker → ℕ
unfolding with_join_time
reported_duration id now last_stt_time c =
    silent_duration now last_stt_time
      (join_time_of id now (with_join_time id now c.participant_join_time))

unfoldable pub is_silent : Text → ℕ → ℕ → Checker → Bool
unfolding reported_duration is_alerted
is_silent id now last_stt_time c =
    leb silent_threshold_ms (reported_duration id now last_stt_time c) && not (is_alerted id c)

unfoldable pub spoke_lately : ℕ → ℕ → Bool
spoke_lately now last_stt_time =
    ltb 0 last_stt_time && ltb (now - last_stt_time) silent_threshold_ms

-- The rest of the loop's body for a participant that is no bot and no host: the alert, and then the
-- reset.
unfoldable pub check_participant : Text → ℕ → ℕ → Checker → Checker × Option ℕ
unfolding is_silent spoke_lately with_join_time reported_duration keep
check_participant id now last_stt_time c =
    let alerts = is_silent id now last_stt_time c in
    let alerted = if alerts then c.already_alerted ++ id ∷ [] else c.already_alerted in
    (
      record {
        participant_join_time = with_join_time id now c.participant_join_time;
        already_alerted =
            if spoke_lately now last_stt_time then keep (λ a. not (a == id)) alerted else alerted;
      },
      if alerts then some (reported_duration id now last_stt_time c) else none,
    )

abbrev pub with_alert : Text → Option ℕ → List (Text × ℕ) → List (Text × ℕ)
with_alert id none alerts = alerts
with_alert id (some duration) alerts = (id, duration) ∷ alerts

-- A round, over the remote participants with their last speech times
unfoldable pub check_round : List Text → ℕ → List (Text × ℕ) → Checker → Checker × List (Text × ℕ)
unfolding check_participant any starts_with
check_round hosts now [] c = (c, [])
check_round hosts now ((id, last_stt_time) ∷ rest) c =
    let skipped = check_round hosts now rest c in
    let (c', alert) = check_participant id now last_stt_time c in
    let (last, alerts) = check_round hosts now rest c' in
    let checked : Checker × List (Text × ℕ) = (last, with_alert id alert alerts) in
    if starts_with id bot_prefix || any (λ h. h == id) hosts then skipped else checked
