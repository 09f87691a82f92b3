-- ===== src/Perplexity/Propagate.antt =====
-- perplexity/wfc-engine.service.ts: `propagate`, which runs at most one rule, and the actions.
pub mod Choice
pub mod Cooldown
use Prim.Native.String
use aura_new_live_server.Prelude.{
  ℕ, ◌+◌, String, Bool, true, false, ◌&&◌, not, Option, none, some, List, [], ◌∷◌, map, ltb, leb,
  ◌==◌, if◌then◌else◌, nat_eq, string_eq, option_or, keep, find, Table, values, keys,
}
use aura_new_live_server.Perplexity.{
  CognitiveState, confused, disengaged, ParticipantCell, TopicCell, PerplexityAction,
  ai_intervention, follow_up_question, topic_transition, peer_teaching, summary_request,
  engagement_boost, PerplexitySession, WfcConstraint, PropagationResult,
}
use aura_new_live_server.Perplexity.Wfc.{observes, grasps, is_open_topic, calculate_session_entropy}

-- The stable sort by falling priority.
place : WfcConstraint → List WfcConstraint → List WfcConstraint
place c [] = c ∷ []
place c (d ∷ ds) = if leb d.priority c.priority then c ∷ d ∷ ds else d ∷ place c ds

unfoldable pub sort_constraints : List WfcConstraint → List WfcConstraint
unfolding place
sort_constraints [] = []
sort_constraints (c ∷ cs) = place c (sort_constraints cs)

-- `lastTriggered && now - lastTriggered < cooldownMs`; a time of 0 counts as none.
unfoldable pub is_cooling : WfcConstraint → ℕ → Bool
is_cooling c now = elim c.last_triggered [
  | none ↦ false
  | some last ↦ not (last == 0) && ltb now (last + c.cooldown_ms)
]

-- What the loop runs a rule on: it is not cooling down and its condition holds.
abbrev pub is_ready : PerplexitySession → ℕ → WfcConstraint → Bool
is_ready s now c = not (is_cooling c now) && c.condition s now

abbrev pub ids : List ParticipantCell → List String
ids = map (λ p. p.participant_id)

abbrev pub names : List ParticipantCell → List String
names = map (λ p. p.participant_name)

-- `xs.length > 0 ? xs : [fallback]`
or_single : List String → String → List String
or_single [] d = d ∷ []
or_single (x ∷ xs) d = x ∷ xs

-- `x || fallback` on texts
text_or : Option String → String → String
text_or none d = d
text_or (some t) d = if t == "" then d else t

-- `${xs[0]?.participantName}`
first_name : List ParticipantCell → String
first_name [] = "undefined"
first_name (p ∷ ps) = p.participant_name

name_of : Option ParticipantCell → String
name_of none = ""
name_of (some p) = p.participant_name

fill_action : PerplexityAction → List ParticipantCell → PerplexitySession → PerplexityAction
unfolding or_single text_or first_name name_of
fill_action (ai_intervention reason _) people s =
    ai_intervention reason (ids (keep (observes confused) people))
fill_action (peer_teaching _ _ _) people s =
    peer_teaching (name_of (find grasps people)) (names (keep (observes confused) people))
      (text_or s.current_topic "현재 주제")
fill_action (engagement_boost _ suggestion) people s =
    let gone = keep (observes disengaged) people in
    engagement_boost (ids gone) (String.◌++◌ (first_name gone) suggestion)
fill_action (summary_request _ reason) people s =
    let open_topics = keep (λ t. is_open_topic t.state) (values s.topics) in
    summary_request (or_single (map (λ t. t.topic_name) open_topics) "현재 논의 내용") reason
fill_action base people s = base

-- `buildAction`
unfoldable pub build_action : WfcConstraint → PerplexitySession → PerplexityAction
unfolding fill_action
build_action c s = fill_action c.action (values s.participants) s

-- `getAffectedParticipants`
unfoldable pub get_affected_participants : PerplexityAction → PerplexitySession → List String
get_affected_participants (ai_intervention _ targets) s = targets
get_affected_participants (engagement_boost targets _) s = targets
get_affected_participants (peer_teaching teacher learners _) s = teacher ∷ learners
get_affected_participants (follow_up_question _ _ targets) s =
    option_or targets (keys s.participants)
get_affected_participants _ s = keys s.participants

-- `constraint.lastTriggered = now`, on the rule with this id
unfoldable pub trigger : String → ℕ → List WfcConstraint → List WfcConstraint
trigger id now [] = []
trigger id now (c ∷ cs) =
    (if c.id == id then record c { last_triggered = some now } else c) ∷ trigger id now cs

result_of : Option WfcConstraint → PerplexitySession → PropagationResult
unfolding build_action get_affected_participants
result_of none s = record {
  triggered_constraints = [];
  actions = [];
  entropy_change = (s.session_entropy, calculate_session_entropy s);
  affected_participants = [];
}
result_of (some c) s = record {
  triggered_constraints = c.id ∷ [];
  actions = build_action c s ∷ [];
  entropy_change = (s.session_entropy, calculate_session_entropy s);
  affected_participants = get_affected_participants (build_action c s) s;
}

cooled : Option WfcConstraint → ℕ → List WfcConstraint → List WfcConstraint
unfolding trigger
cooled none now cs = cs
cooled (some c) now cs = trigger c.id now cs

-- The rule that the loop of `propagate` runs: the first one that is ready, by falling priority.
unfoldable pub chosen : List WfcConstraint → PerplexitySession → ℕ → Option WfcConstraint
unfolding sort_constraints
chosen cs s now = find (is_ready s now) (sort_constraints cs)

-- `propagate`: the result, and the rules with the time of the one that ran.
unfoldable pub propagate :
    List WfcConstraint → PerplexitySession → ℕ → PropagationResult × List WfcConstraint
unfolding result_of cooled chosen
propagate cs s now = (result_of (chosen cs s now) s, cooled (chosen cs s now) now cs)
