-- ===== src/Perplexity/Service.antt =====
-- perplexity/perplexity.service.ts: the sessions of the rooms and the messages of the frontend.
pub mod Transcripts
pub mod Sessions
pub mod Handlers
pub mod Limits
use text.Mathlib.Text.{find?}
use aura_new_live_server.Prelude.{
  Text, starts_with, ℕ, ◌+◌, ◌-◌, String, Bool, true, false, ◌&&◌, ◌||◌, not, Option, none, some,
  List, [], ◌∷◌, ◌++◌, map, ltb, leb, ◌==◌, if◌then◌else◌, nat_eq, string_eq, is_some, option_or,
  length, any, drop, Table, get, has, set, delete,
}
use aura_new_live_server.Perplexity.{
  CognitiveState, confused, thinking, contributing, understood, EntropyLevel, high, Ratio,
  ParticipantCell, PerplexityAction, topic_transition, Transcript, PerplexitySession, WfcConstraint,
  PropagationResult, StateUpdate, ReportedState,
}
use aura_new_live_server.Perplexity.Wfc.{
  collapse_state, create_participant_cell, update_session_entropy, default_constraints,
}
use aura_new_live_server.Perplexity.Propagate.{propagate}

-- The `sessions` of the service, and the rules of its engine, which all sessions share.
pub record Perplexity : Type 0 where
  pub sessions : Table String PerplexitySession
  pub rules : List WfcConstraint

abbrev pub init : Perplexity
init = record { sessions = []; rules = default_constraints }

abbrev pub put_session : String → PerplexitySession → Perplexity → Perplexity
put_session room s p = record p { sessions = set room s p.sessions }

-- `startSession`
unfoldable pub start_session : String → ℕ → Perplexity → PerplexitySession × Perplexity
start_session room now p =
    let s : PerplexitySession = record {
      room_id = room;
      is_active = true;
      start_time = now;
      participants = [];
      topics = [];
      current_topic = none;
      session_entropy = record { num = 1; den = 1 };
      entropy_level = high;
      action_history = [];
      last_propagation = 0;
      recent_transcripts = [];
    } in
    (s, put_session room s p)

unfoldable pub ended_session :
    String → Option PerplexitySession → Perplexity → Option PerplexitySession × Perplexity
ended_session room none p = (none, p)
ended_session room (some s) p =
    (some (record s { is_active = false }), record p { sessions = delete room p.sessions })

-- `endSession`
unfoldable pub end_session : String → Perplexity → Option PerplexitySession × Perplexity
unfolding ended_session
end_session room p = ended_session room (get room p.sessions) p

-- `isSessionActive`
unfoldable pub is_session_active : String → Perplexity → Bool
is_session_active room p = elim (get room p.sessions) [ none ↦ false | some s ↦ s.is_active ]

with_participant : String → String → ℕ → PerplexitySession → PerplexitySession
with_participant id name now s =
    if has id s.participants
    then s
    else record s { participants = set id (create_participant_cell id name now) s.participants }

-- `addParticipant`
unfoldable pub add_participant : String → String → String → ℕ → Perplexity → Perplexity
unfolding with_participant
add_participant room id name now p = elim (get room p.sessions) [
  | none ↦ p
  | some s ↦ put_session room (with_participant id name now s) p
]

-- `removeParticipant`
unfoldable pub remove_participant : String → String → Perplexity → Perplexity
remove_participant room id p = elim (get room p.sessions) [
  | none ↦ p
  | some s ↦ put_session room (record s { participants = delete id s.participants }) p
]

-- `MIN_PROPAGATION_INTERVAL_MS`
abbrev pub min_propagation_interval_ms : ℕ
min_propagation_interval_ms = 500

-- `tryPropagate`: none within half a second of the last one.
unfoldable pub try_propagate :
    PerplexitySession
    → ℕ
    → List WfcConstraint
    → Option PropagationResult × PerplexitySession × List WfcConstraint
try_propagate s now rules =
    let s' = record s { last_propagation = now } in
    let (r, rules') = propagate rules s' now in
    if ltb now (s.last_propagation + min_propagation_interval_ms) then (none, s, rules) else (
      some r,
      record s' { action_history = s.action_history ++ map (λ a. (a, now)) r.actions },
      rules',
    )

-- `tryPropagate` on the session of a room
unfoldable pub propagated :
    String → PerplexitySession → ℕ → Perplexity → Option PropagationResult × Perplexity
unfolding try_propagate
propagated room s now p =
    let (r, s', rules') = try_propagate s now p.rules in
    (r, record { sessions = set room s' p.sessions; rules = rules' })

-- `if (state) { … collapseState … }`
unfoldable pub observe :
    String
    → ParticipantCell
    → Option CognitiveState
    → Ratio
    → ℕ
    → PerplexitySession
    → PerplexitySession
observe id cell none confidence now s = s
observe id cell (some state) confidence now s = record s {
  participants = set id (collapse_state cell state confidence now) s.participants;
}

state_update :
    String
    → StateUpdate
    → ℕ
    → PerplexitySession
    → Perplexity
    → Option PropagationResult × Perplexity
unfolding observe propagated
state_update room u now s p = elim (get u.participant_id s.participants) [
  | none ↦ (none, p)
  | some cell ↦ propagated room (observe u.participant_id cell u.state u.confidence now s) now p
]

-- `if (!session || !session.isActive) return null`
unfoldable pub on_active {ℓ} :
    {A : Type ℓ}
    → Option PerplexitySession
    → Perplexity
    → (PerplexitySession → Option A × Perplexity)
    → Option A × Perplexity
on_active none p f = (none, p)
on_active (some s) p f = if s.is_active then f s else (none, p)

-- `handleStateUpdate`
unfoldable pub handle_state_update :
    String → StateUpdate → ℕ → Perplexity → Option PropagationResult × Perplexity
unfolding on_active state_update
handle_state_update room u now p =
    on_active (get room p.sessions) p (λ s. state_update room u now s p)

-- A state that was inferred from text less than five seconds ago.
abbrev pub is_protected : ParticipantCell → ℕ → Bool
is_protected cell now = ltb 0 cell.text_inferred_at && ltb now (cell.text_inferred_at + 5000)

unfoldable pub report_cell :
    Option ParticipantCell → ReportedState → ℕ → PerplexitySession → PerplexitySession
unfolding observe
report_cell none u now s = s
report_cell (some cell) u now s =
    let seven_tenths : Ratio = record { num = 7; den = 10 } in
    if is_protected cell now
    then s
    else observe u.participant_id cell u.state (option_or u.confidence seven_tenths) now s

-- The loop of `handleEntropyReport`.
unfoldable pub report_cells : List ReportedState → ℕ → PerplexitySession → PerplexitySession
unfolding report_cell
report_cells [] now s = s
report_cells (u ∷ us) now s =
    report_cells us now (report_cell (get u.participant_id s.participants) u now s)

-- `handleEntropyReport`
unfoldable pub handle_entropy_report :
    String → List ReportedState → ℕ → Perplexity → Option PropagationResult × Perplexity
unfolding on_active report_cells propagated
handle_entropy_report room us now p =
    on_active (get room p.sessions) p
      (λ s. propagated room (update_session_entropy (report_cells us now s)) now p)
