-- ===== src/Perplexity/Tests.antt =====
-- The Perplexity mode at concrete inputs.
use mathlib.Core.Option
use aura_new_live_server.Prelude.{
  ◌≡◌, ◌≢◌, refl, String, true, false, Option, none, some, List, [], ◌∷◌, arith, any, find, keep,
  values, option_or, get, set, nat_eq, string_eq,
}
use aura_new_live_server.Perplexity.{
  confused, thinking, contributing, understood, state_eq, high, Ratio, ParticipantCell,
  PerplexityAction, PerplexitySession, WfcConstraint, ReportedState,
}
use aura_new_live_server.Perplexity.Wfc.{
  includes, collapse_state, create_participant_cell, update_session_entropy, default_constraints,
  many_confused, confused_thrice,
}
use aura_new_live_server.Perplexity.Wfc.Collapse.{includes-collapse_state}
use aura_new_live_server.Perplexity.Propagate.{propagate, chosen, sort_constraints, is_cooling}
use aura_new_live_server.Perplexity.Propagate.Choice.{Propagates, propagate-Propagates}
use aura_new_live_server.Perplexity.Propagate.Cooldown.{propagate_cooldown}
use aura_new_live_server.Perplexity.Service.{
  Perplexity, init, handle_entropy_report, start_session, add_participant, propagated, end_session,
}
use aura_new_live_server.Perplexity.Service.Transcripts.{
  infer_state_from_transcript, add_transcript,
}
use aura_new_live_server.Perplexity.Service.Sessions.{IsSession}
use aura_new_live_server.Perplexity.Service.Limits.{handle_entropy_report_protected}
use aura_new_live_server.Perplexity.Messages.{perplexity_start, transcript, handle_message}
use aura_new_live_server.Perplexity.Messages.Histories.{
  Happening, says, joins, run, step, run-IsSession, handle_message_ended,
}

infers :
    (infer_state_from_transcript "이 부분은 어려워요" ≡ some confused)
    × (infer_state_from_transcript "흠, 글쎄" ≡ some thinking)
    × (infer_state_from_transcript "왜?" ≡ some contributing)
    × (infer_state_from_transcript "네" ≡ none)
unfolding infer_state_from_transcript any
infers = (refl, refl, refl, refl)

abbrev sixty : Ratio
sixty = record { num = 60; den = 100 }

abbrev new_cell : ParticipantCell
new_cell = record {
  participant_id = "p";
  participant_name = "태은";
  possible_states = confused ∷ [];
  observed_state = some confused;
  entropy = 0;
  confidence = record { num = 9; den = 10 };
  last_update = 100;
  speaking_ratio = record { num = 0; den = 1 };
  question_count = 0;
  confusion_count = 1;
  text_inferred_at = 100;
}

includes-collapse_state_example :
    includes thinking (collapse_state new_cell understood sixty 200).possible_states ≡ false
unfolding includes
includes-collapse_state_example = includes-collapse_state new_cell understood thinking sixty 200

abbrev session : PerplexitySession
session = record {
  room_id = "a";
  is_active = true;
  start_time = 0;
  participants = ("p", new_cell) ∷ [];
  topics = [];
  current_topic = none;
  session_entropy = record { num = 1; den = 1 };
  entropy_level = high;
  action_history = [];
  last_propagation = 0;
  recent_transcripts = [];
}

abbrev rule : WfcConstraint
rule = record {
  id = "confusion_intervention";
  condition = many_confused;
  action = PerplexityAction.ai_intervention "" [];
  priority = 100;
  cooldown_ms = 60000;
  last_triggered = none;
}

abbrev two_rules : List WfcConstraint
two_rules =
    record {
      id = "single_confusion_assist";
      condition = confused_thrice;
      action = PerplexityAction.ai_intervention "" [];
      priority = 80;
      cooldown_ms = 45000;
      last_triggered = none;
    }
    ∷ rule
    ∷ []

propagate-Propagates_example : Propagates default_constraints session 1000
propagate-Propagates_example = propagate-Propagates default_constraints session 1000

other_id : ◌≢◌ {A = String} "single_confusion_assist" "confusion_intervention"
other_id = ground (arith, string_eq.equals_iff "single_confusion_assist" "confusion_intervention")

-- One room's intervention keeps the rule from the other rooms for a minute.
propagate_cooldown_example :
    (propagate
      (propagate two_rules session 1000).1
      (record session { room_id = "b" })
      2000).0.triggered_constraints
    ≢ "confusion_intervention" ∷ []
unfolding chosen sort_constraints is_cooling many_confused confused_thrice find any keep values
propagate_cooldown_example =
    propagate_cooldown two_rules session (record session { room_id = "b" }) 1000 2000 rule refl
      ((λ e. absurd (other_id e)), ((λ e. refl), tt)) (omega arith) (omega arith)

abbrev service : Perplexity
service = record init { sessions = ("a", session) ∷ [] }

abbrev reports : List ReportedState
reports =
    record { participant_id = "p"; state = some understood; confidence = none }
    ∷ record { participant_id = "q"; state = none; confidence = some sixty }
    ∷ []

handle_entropy_report_protected_example :
    (s' : PerplexitySession) × (get "a" (handle_entropy_report "a" reports 5099 service).1.sessions
      ≡ some s')
    × (get "p" s'.participants ≡ some new_cell)
unfolding get
handle_entropy_report_protected_example =
    handle_entropy_report_protected "a" "p" reports 5099 service session new_cell refl refl refl
      refl

abbrev silent : PerplexitySession → PerplexityAction → Option String
silent s a = none

abbrev history : List Happening
history =
    says "a" perplexity_start 10
    ∷ joins "a" "p" "태은" 20
    ∷ says "a" (transcript "p" "이 부분은 어려워요") 1000
    ∷ []

handle_message_ended_example :
    let p' = (end_session "a" service).1 in
    handle_message silent "a" (transcript "p" "네") 7 p' ≡ (none, p')
handle_message_ended_example =
    handle_message_ended silent "a" (transcript "p" "네") 7 service (λ e. cc)

abbrev reached : PerplexitySession
reached = option_or (get "a" (run silent init history).sessions) session

reached_states :
    Option.map (λ c. c.possible_states) (get "p" reached.participants) ≡ some (confused ∷ [])
unfolding run step handle_message start_session add_participant add_transcript
    infer_state_from_transcript collapse_state create_participant_cell propagated propagate chosen
    default_constraints sort_constraints any find keep values get set update_session_entropy
reached_states = refl

run-IsSession_example : IsSession reached
unfolding run step handle_message start_session add_participant add_transcript
    infer_state_from_transcript collapse_state create_participant_cell propagated propagate chosen
    default_constraints sort_constraints any find keep values get set update_session_entropy
run-IsSession_example = run-IsSession silent history "a" reached refl
