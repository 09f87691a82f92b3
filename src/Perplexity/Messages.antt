-- ===== src/Perplexity/Messages.antt =====
-- perplexity/perplexity.service.ts: `handleMessage` and the answers to the actions.
pub mod Absent
pub mod Histories
use aura_new_live_server.Prelude.{
  ℕ, ◌-◌, String, Bool, true, false, Option, none, some, List, [], ◌∷◌, ◌==◌, if◌then◌else◌, nat_eq,
  string_eq, length, Table, get,
}
use aura_new_live_server.Perplexity.{
  CognitiveState, EntropyLevel, Ratio, PerplexityAction, topic_transition, PerplexitySession,
  PropagationResult, StateUpdate, ReportedState,
}
use aura_new_live_server.Perplexity.Wfc.{update_session_entropy}
use aura_new_live_server.Perplexity.Service.{
  Perplexity, start_session, end_session, handle_state_update, handle_entropy_report, propagated,
}
use aura_new_live_server.Perplexity.Service.Transcripts.{add_transcript}

-- `PerplexityMessage`, by its `type`, with the payload that the type has.
pub data Message : Type 0 where
  perplexity_start perplexity_end : Message
  state_update : StateUpdate → Message
  entropy_report : List ReportedState → Message
  transcript : (participant_id text : String) → Message
  unhandled : Message

pub record Answer : Type 0 where
  pub action : PerplexityAction
  pub response : Option String

-- `response || undefined`
or_undefined : Option String → Option String
or_undefined none = none
or_undefined (some t) = if t == "" then none else some t

-- What the language model answers to the prompt for a session and an action, trimmed to its first
-- line, or none if it fails. It is called over the network.
module _ (ask : PerplexitySession → PerplexityAction → Option String) where
  respond : PerplexitySession → PerplexityAction → Option String
  respond s (topic_transition _ _ _) = none
  respond s action = ask s action

  -- `generateInterventionResponse`
  unfoldable pub generate_intervention_response :
      String → PerplexityAction → Perplexity → Option String
  unfolding respond
  generate_intervention_response room action p = elim (get room p.sessions) [
    | none ↦ none
    | some s ↦ respond s action
  ]

  first_answer : String → List PerplexityAction → Perplexity → Option Answer
  unfolding or_undefined
  first_answer room [] p = none
  first_answer room (a ∷ as') p =
      some
        (record { action = a; response = or_undefined (generate_intervention_response room a p) })

  -- `if (result?.actions.length) { … }`
  unfoldable pub answer :
      String → Option PropagationResult × Perplexity → Option Answer × Perplexity
  unfolding first_answer
  answer room (none, p) = (none, p)
  answer room (some r, p) = (first_answer room r.actions p, p)

  -- The propagation after a transcript whose text shows a state.
  unfoldable pub after_transcript :
      String → ℕ → Option CognitiveState × Perplexity → Option Answer × Perplexity
  after_transcript room now (none, p) = (none, p)
  after_transcript room now (some state, p) = elim (get room p.sessions) [
    | none ↦ (none, p)
    | some s ↦ answer room (propagated room (update_session_entropy s) now p)
  ]

  -- `handleMessage`
  unfoldable pub handle_message : String → Message → ℕ → Perplexity → Option Answer × Perplexity
  unfolding answer after_transcript
  handle_message room perplexity_start now p = (none, (start_session room now p).1)
  handle_message room perplexity_end now p = (none, (end_session room p).1)
  handle_message room (state_update u) now p = answer room (handle_state_update room u now p)
  handle_message room (entropy_report us) now p = answer room (handle_entropy_report room us now p)
  handle_message room (transcript id text) now p =
      after_transcript room now (add_transcript room id text now p)
  handle_message room unhandled now p = (none, p)

-- `getSessionSummary`
pub record Summary : Type 0 where
  pub is_active : Bool
  pub participant_count : ℕ
  pub entropy : Ratio
  pub entropy_level : EntropyLevel
  pub action_count : ℕ
  pub duration : ℕ

unfoldable pub get_session_summary : String → ℕ → Perplexity → Option Summary
get_session_summary room now p = elim (get room p.sessions) [
  | none ↦ none
  | some s ↦ some (record {
    is_active = s.is_active;
    participant_count = length s.participants;
    entropy = s.session_entropy;
    entropy_level = s.entropy_level;
    action_count = length s.action_history;
    duration = now - s.start_time;
  })
]
