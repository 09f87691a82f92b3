-- ===== src/Voice/Silences.antt =====
-- livekit/voice-bot.service.ts: how often a silent participant is reported.
use aura_new_live_server.Prelude.{
  Text, ℕ, ◌+◌, ◌-◌, ◌≤◌, ◌<◌, ◌≡◌, ◌⊎◌, refl, ◌∙◌, ap, inl, inr, true, false, Option, none, some,
  List, [], ◌∷◌, ◌++◌, any, leb, ◌==◌, ==_refl, nat_eq, list_eq, arith, Bool-cases, Table, get, set,
  get-set_self,
}
use aura_new_live_server.Voice.Silence.{
  Checker, check_participant, is_alerted, reported_duration, is_silent, spoke_lately,
  with_join_time, join_time_of,
}

abbrev told : Option ℕ → List ℕ → List ℕ
told none later = later
told (some duration) later = duration ∷ later

-- One participant over several checks.
unfoldable pub checks : Text → List (ℕ × ℕ) → Checker → Checker × List ℕ
checks id [] c = (c, [])
checks id ((now, last_stt_time) ∷ rest) c =
    let (c', alert) = check_participant id now last_stt_time c in
    let (last, later) = checks id rest c' in (last, told alert later)

-- At each check the participant has not spoken in the last minute.
abbrev pub StaysSilent : List (ℕ × ℕ) → Type 0
StaysSilent [] = Unit {0}
StaysSilent ((now, last_stt_time) ∷ rest) =
    ((last_stt_time ≡ 0) ⊎ (last_stt_time + 60000 ≤ now)) × StaysSilent rest

spoke_lately_silent :
    (now last_stt_time : ℕ)
    → (last_stt_time ≡ 0) ⊎ (last_stt_time + 60000 ≤ now)
    → spoke_lately now last_stt_time ≡ false
unfolding spoke_lately
spoke_lately_silent now last_stt_time (inl never) = rw never refl
spoke_lately_silent now last_stt_time (inr long_ago) = ground (arith, long_ago)

is_silent_alerted :
    (id : Text) (now last_stt_time : ℕ) (c : Checker)
    → is_alerted id c ≡ true
    → is_silent id now last_stt_time c ≡ false
unfolding is_silent
is_silent_alerted id now last_stt_time c alerted =
    elim (Bool-cases (leb 60000 (reported_duration id now last_stt_time c))) [
      | inl long ↦ rw (alerted, long) refl
      | inr short ↦ rw short refl
    ]

check_participant_alerted :
    (id : Text) (now last_stt_time : ℕ) (c : Checker)
    → is_alerted id c ≡ true
    → (last_stt_time ≡ 0) ⊎ (last_stt_time + 60000 ≤ now)
    → (is_alerted id (check_participant id now last_stt_time c).0 ≡ true)
      × ((check_participant id now last_stt_time c).1 ≡ none)
unfolding check_participant is_alerted
check_participant_alerted id now last_stt_time c alerted silent =
    let quiet = spoke_lately_silent now last_stt_time silent in
    let none_new = is_silent_alerted id now last_stt_time c alerted in
    (rw (none_new, quiet) alerted, rw none_new refl)

checks_alerted :
    (id : Text) (times : List (ℕ × ℕ)) (c : Checker)
    → is_alerted id c ≡ true
    → StaysSilent times
    → (checks id times c).1 ≡ []
unfolding checks
checks_alerted id [] c alerted silent = refl
checks_alerted id ((now, last_stt_time) ∷ rest) c alerted silent =
    let (still, none_now) = check_participant_alerted id now last_stt_time c alerted silent.0 in
    rw (none_now, checks)
      (checks_alerted id rest (check_participant id now last_stt_time c).0 still silent.1)

any-append_self : (id : Text) (alerted : List Text) → any (λ a. a == id) (alerted ++ id ∷ []) ≡ true
unfolding any
any-append_self id [] = rw (==_refl id) refl
any-append_self id (a ∷ alerted) = ground (arith, any-append_self id alerted)

join_time_of_seen :
    (id : Text) (first now : ℕ) (times : Table Text ℕ)
    → get id times ≡ some first
    → 0 < first
    → join_time_of id now times ≡ first
join_time_of_seen id first now times seen positive =
    let time : (first == 0) ≡ false = ground (arith, positive) in
    rw (seen, join_time_of) (rw time refl)

module _ (id : Text) (c : Checker) where
  -- From the time at which the participant was first seen.
  reported_duration_seen :
      (first now : ℕ)
      → get id c.participant_join_time ≡ some first
      → 0 < first
      → reported_duration id now 0 c ≡ now - first
  unfolding reported_duration with_join_time
  reported_duration_seen first now seen positive =
      let stays : with_join_time id now c.participant_join_time ≡ c.participant_join_time =
        rw (seen, with_join_time) refl in
      rw stays (
        ap (λ (time : ℕ). now - time)
          (join_time_of_seen id first now c.participant_join_time seen positive))

  check_participant_quiet :
      (now : ℕ)
      → is_silent id now 0 c ≡ false
      → check_participant id now 0 c
        ≡ (record c { participant_join_time = with_join_time id now c.participant_join_time }, none)
  unfolding check_participant spoke_lately
  check_participant_quiet now quiet = rw (quiet, check_participant) refl

  check_participant_reports :
      (now : ℕ)
      → is_silent id now 0 c ≡ true
      → check_participant id now 0 c ≡ (
        record {
          already_alerted = c.already_alerted ++ id ∷ [];
          participant_join_time = with_join_time id now c.participant_join_time;
        },
        some (reported_duration id now 0 c),
      )
  unfolding check_participant spoke_lately
  check_participant_reports now long = rw (long, check_participant) refl

  checks_quiet :
      (now : ℕ) (rest : List (ℕ × ℕ)) (c' : Checker)
      → check_participant id now 0 c ≡ (c', none)
      → (checks id ((now, 0) ∷ rest) c).1 ≡ (checks id rest c').1
  unfolding checks
  checks_quiet now rest c' e = rw (e, checks) refl

  checks_reports :
      (now duration : ℕ) (rest : List (ℕ × ℕ)) (c' : Checker)
      → check_participant id now 0 c ≡ (c', some duration)
      → (checks id ((now, 0) ∷ rest) c).1 ≡ duration ∷ (checks id rest c').1
  unfolding checks
  checks_reports now duration rest c' e = rw (e, checks) refl

-- Checks before a minute has passed since the first, and none of which knows of a speech.
abbrev pub AllEarly : ℕ → List ℕ → Type 0
AllEarly first [] = Unit {0}
AllEarly first (time ∷ times) = (time < first + 60000) × AllEarly first times

abbrev pub unspoken : List ℕ → List (ℕ × ℕ)
unspoken [] = []
unspoken (time ∷ times) = (time, 0) ∷ unspoken times

module _ (id : Text) (first : ℕ) (seen : Checker)
    (has_time : get id seen.participant_join_time ≡ some first) (positive : 0 < first) where
  join_time_stays :
      (now : ℕ) → with_join_time id now seen.participant_join_time ≡ seen.participant_join_time
  unfolding with_join_time
  join_time_stays now = rw (has_time, with_join_time) refl

  -- The checks of the first minute report nothing and change nothing.
  checks_early :
      (early : List ℕ) (rest : List (ℕ × ℕ))
      → AllEarly first early
      → (checks id (unspoken early ++ rest) seen).1 ≡ (checks id rest seen).1
  unfolding is_silent
  checks_early [] rest soon = refl
  checks_early (time ∷ early) rest soon =
      let duration = reported_duration_seen id seen first time has_time positive in
      let quiet : is_silent id time 0 seen ≡ false =
        rw (duration, is_silent) (ground (arith, soon.0)) in
      let same : check_participant id time 0 seen ≡ (seen, none) =
        check_participant_quiet id seen time quiet
        ∙ ap (λ t. (record seen { participant_join_time = t }, none)) (join_time_stays time) in
      checks_quiet id seen time (unspoken early ++ rest) seen same ∙ checks_early early rest soon.1

  -- The check a minute or more after the first reports, and no later one does.
  checks_late :
      (now : ℕ) (times : List (ℕ × ℕ))
      → is_alerted id seen ≡ false
      → first + 60000 ≤ now
      → StaysSilent times
      → (checks id ((now, 0) ∷ times) seen).1 ≡ (now - first) ∷ []
  unfolding is_silent is_alerted
  checks_late now times fresh long silent =
      let reported = record seen { already_alerted = seen.already_alerted ++ id ∷ [] } in
      let duration = reported_duration_seen id seen first now has_time positive in
      let now_silent : is_silent id now 0 seen ≡ true =
        rw (duration, is_silent) (rw fresh (ground (arith, long))) in
      let check : check_participant id now 0 seen ≡ (reported, some (now - first)) =
        check_participant_reports id seen now now_silent
        ∙ ap
            (λ t. (
              record reported { participant_join_time = t },
              some (reported_duration id now 0 seen),
            ))
            (join_time_stays now)
        ∙ ap (λ d. (reported, some d)) duration in
      checks_reports id seen now (now - first) times reported check
      ∙ ap (λ ds. (now - first) ∷ ds)
          (checks_alerted id times reported (any-append_self id seen.already_alerted) silent)

-- A participant that was not seen before and does not speak is reported once: not by the first
-- check nor by any others within a minute of it, but by the next one, with the time since the
-- first, and by none after that.
pub checks_once :
    (id : Text) (first now : ℕ) (early : List ℕ) (times : List (ℕ × ℕ)) (c : Checker)
    → get id c.participant_join_time ≡ none
    → is_alerted id c ≡ false
    → 0 < first
    → AllEarly first early
    → first + 60000 ≤ now
    → StaysSilent times
    → (checks id ((first, 0) ∷ (unspoken early ++ (now, 0) ∷ times)) c).1 ≡ (now - first) ∷ []
unfolding is_silent is_alerted with_join_time reported_duration
checks_once id first now early times c unseen fresh positive soon long silent =
    let joined = set id first c.participant_join_time in
    let seen = record c { participant_join_time = joined } in
    let has_time : get id joined ≡ some first = get-set_self id first c.participant_join_time in
    let joins : with_join_time id first c.participant_join_time ≡ joined =
      rw (unseen, with_join_time) refl in
    let no_time : reported_duration id first 0 c ≡ 0 =
      rw joins (omega (arith, join_time_of_seen id first first joined has_time positive)) in
    let not_yet : is_silent id first 0 c ≡ false = rw (no_time, is_silent) refl in
    let first_check : check_participant id first 0 c ≡ (seen, none) =
      check_participant_quiet id c first not_yet
      ∙ ap (λ t. (record c { participant_join_time = t }, none)) joins in
    checks_quiet id c first (unspoken early ++ (now, 0) ∷ times) seen first_check
    ∙ checks_early id first seen has_time positive early ((now, 0) ∷ times) soon
    ∙ checks_late id first seen has_time positive now times fresh long silent
