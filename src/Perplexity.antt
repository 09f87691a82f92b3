-- ===== src/Perplexity.antt =====
-- perplexity/perplexity.types.ts: the data of the Perplexity mode.
pub mod Wfc
pub mod Propagate
pub mod Service
pub mod Messages
mod Tests
use aura_new_live_server.Prelude.{
  ℕ, ◌*◌, ◌≡◌, ◌↔◌, String, Bool, true, Option, List, arith, Comparable, nat_beq, leb, ltb, Table,
}

-- `CognitiveState`
pub data CognitiveState : Type 0 where
  confused absorbing thinking contributing understood disengaged : CognitiveState

abbrev pub code : CognitiveState → ℕ
code confused = 0
code absorbing = 1
code thinking = 2
code contributing = 3
code understood = 4
code disengaged = 5

abbrev pub state_beq : CognitiveState → CognitiveState → Bool
state_beq a b = nat_beq (code a) (code b)

pub state_beq_iff : (a b : CognitiveState) → (state_beq a b ≡ true) ↔ (a ≡ b)
state_beq_iff a b = ground arith

-- `===` on states
instance abbrev pub state_eq : Comparable CognitiveState
state_eq = record { equals = state_beq; equals_iff = state_beq_iff }

-- `TopicState`
pub data TopicState : Type 0 where
  introduced discussing clarifying mastered skipped : TopicState

-- `EntropyLevel`
pub data EntropyLevel : Type 0 where
  low medium high : EntropyLevel

-- A number of the source that is a quotient, kept as its two parts. The parts are natural numbers.
pub record Ratio : Type 0 where
  pub num : ℕ
  pub den : ℕ

-- `x >= n / d`, for a positive denominator of `x`
abbrev pub at_least : Ratio → ℕ → ℕ → Bool
at_least x n d = leb (n * x.den) (x.num * d)

-- `x < n / d`
abbrev pub less_than : Ratio → ℕ → ℕ → Bool
less_than x n d = ltb (x.num * d) (n * x.den)

-- `x > n / d`
abbrev pub more_than : Ratio → ℕ → ℕ → Bool
more_than x n d = ltb (n * x.den) (x.num * d)

-- `ParticipantCell`. `entropy` counts sixths: the source only stores 1, 0 and `length / 6`.
pub record ParticipantCell : Type 0 where
  pub participant_id : String
  pub participant_name : String
  pub possible_states : List CognitiveState
  pub observed_state : Option CognitiveState
  pub entropy : ℕ
  pub confidence : Ratio
  pub last_update : ℕ
  pub speaking_ratio : Ratio
  pub question_count : ℕ
  pub confusion_count : ℕ
  pub text_inferred_at : ℕ

-- `TopicCell`
pub record TopicCell : Type 0 where
  pub topic_id : String
  pub topic_name : String
  pub state : TopicState
  pub participant_understanding : Table String ℕ
  pub mention_count : ℕ
  pub last_mention : ℕ

-- `PerplexityAction`
pub data PerplexityAction : Type 0 where
  ai_intervention : (reason : String) (target_participants : List String) → PerplexityAction
  follow_up_question :
      (question context : String) (target_participants : Option (List String)) → PerplexityAction
  topic_transition : (from_topic to_topic reason : String) → PerplexityAction
  peer_teaching : (teacher : String) (learners : List String) (topic : String) → PerplexityAction
  summary_request : (topics : List String) (reason : String) → PerplexityAction
  engagement_boost : (target_participants : List String) (suggestion : String) → PerplexityAction

pub record Transcript : Type 0 where
  pub speaker : String
  pub text : String
  pub timestamp : ℕ

-- `PerplexitySession`
pub record PerplexitySession : Type 0 where
  pub room_id : String
  pub is_active : Bool
  pub start_time : ℕ
  pub participants : Table String ParticipantCell
  pub topics : Table String TopicCell
  pub current_topic : Option String
  pub session_entropy : Ratio
  pub entropy_level : EntropyLevel
  pub action_history : List (PerplexityAction × ℕ)
  pub last_propagation : ℕ
  pub recent_transcripts : List Transcript

-- `WFCConstraint`; the condition reads the session and the clock.
pub record WfcConstraint : Type 0 where
  pub id : String
  pub condition : PerplexitySession → ℕ → Bool
  pub action : PerplexityAction
  pub priority : ℕ
  pub cooldown_ms : ℕ
  pub last_triggered : Option ℕ

-- `PropagationResult`; `entropyChange` is kept as the entropies before and after.
pub record PropagationResult : Type 0 where
  pub triggered_constraints : List String
  pub actions : List PerplexityAction
  pub entropy_change : Ratio × Ratio
  pub affected_participants : List String

-- `StateUpdatePayload`; its `entropy` is not read.
pub record StateUpdate : Type 0 where
  pub participant_id : String
  pub state : Option CognitiveState
  pub confidence : Ratio

-- An entry of `EntropyReportPayload.participantStates`, whose confidence may be missing.
pub record ReportedState : Type 0 where
  pub participant_id : String
  pub state : Option CognitiveState
  pub confidence : Option Ratio
