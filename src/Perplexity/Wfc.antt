-- ===== src/Perplexity/Wfc.antt =====
-- perplexity/wfc-engine.service.ts: the cells' states, the rules and their propagation.
pub mod Cells
pub mod Collapse
use aura_new_live_server.Prelude.{
  ℕ, suc, ◌+◌, ◌-◌, ◌*◌, String, Bool, true, false, ◌&&◌, ◌||◌, Option, none, some, List, [], ◌∷◌,
  ◌++◌, map, ltb, leb, ◌==◌, if◌then◌else◌, nat_eq, string_eq, is_some, option_or, length, keep,
  any, find, Table, values, keys,
}
use aura_new_live_server.Perplexity.{
  CognitiveState, confused, absorbing, thinking, contributing, understood, disengaged, state_eq,
  TopicState, discussing, clarifying, EntropyLevel, low, medium, high, Ratio, at_least, less_than,
  more_than, ParticipantCell, TopicCell, PerplexityAction, ai_intervention, follow_up_question,
  topic_transition, peer_teaching, summary_request, engagement_boost, PerplexitySession,
  WfcConstraint, PropagationResult,
}

-- `xs.includes(x)`
unfoldable pub includes : CognitiveState → List CognitiveState → Bool
includes x [] = false
includes x (y ∷ ys) = x == y || includes x ys

-- `compatibilityMap`
unfoldable pub compatible_with : CognitiveState → List CognitiveState
compatible_with confused = thinking ∷ absorbing ∷ []
compatible_with absorbing = thinking ∷ confused ∷ understood ∷ []
compatible_with thinking = confused ∷ absorbing ∷ contributing ∷ understood ∷ []
compatible_with contributing = thinking ∷ understood ∷ []
compatible_with understood = absorbing ∷ contributing ∷ []
compatible_with disengaged = confused ∷ absorbing ∷ []

-- `isCompatibleState`
unfoldable pub is_compatible_state : CognitiveState → CognitiveState → Bool
unfolding compatible_with includes
is_compatible_state a b = includes b (compatible_with a)

-- The states that an observation of medium confidence leaves.
abbrev pub narrowed : CognitiveState → List CognitiveState → List CognitiveState
narrowed observed = keep (λ s. s == observed || is_compatible_state s observed)

settle : ParticipantCell → List CognitiveState → ParticipantCell
settle cell (s ∷ []) = record cell {
  possible_states = s ∷ [];
  observed_state = some s;
  entropy = 0;
}
settle cell states = record cell { possible_states = states; entropy = length states }

abbrev hinted : CognitiveState → List CognitiveState → List CognitiveState
hinted observed states = if includes observed states then states else states ++ observed ∷ []

-- The three cases of `collapseState` by confidence: 0.7 and more, 0.5 and more, and less.
narrow : ParticipantCell → CognitiveState → Ratio → ParticipantCell
unfolding settle
narrow cell observed confidence =
    let states = hinted observed cell.possible_states in
    if at_least confidence 7 10
    then record cell {
      possible_states = observed ∷ [];
      observed_state = some observed;
      entropy = 0;
    }
    else if at_least confidence 1 2
    then settle cell (narrowed observed cell.possible_states)
    else record cell { possible_states = states; entropy = length states }

-- The confusion counter of `collapseState`; `Math.max(0, n - 1)` is the subtraction of ℕ.
abbrev counted : CognitiveState → ℕ → ℕ
counted confused n = n + 1
counted understood n = n - 1
counted contributing n = n - 1
counted _ n = n

-- `collapseState`
unfoldable pub collapse_state : ParticipantCell → CognitiveState → Ratio → ℕ → ParticipantCell
unfolding narrow
collapse_state cell observed confidence now = record (narrow cell observed confidence) {
  confusion_count = counted observed cell.confusion_count;
  confidence = confidence;
  last_update = now;
}

-- `createParticipantCell`
unfoldable pub create_participant_cell : String → String → ℕ → ParticipantCell
create_participant_cell id name now = record {
  participant_id = id;
  participant_name = name;
  possible_states = absorbing ∷ thinking ∷ confused ∷ contributing ∷ understood ∷ disengaged ∷ [];
  observed_state = none;
  entropy = 6;
  confidence = record { num = 0; den = 1 };
  last_update = now;
  speaking_ratio = record { num = 0; den = 1 };
  question_count = 0;
  confusion_count = 0;
  text_inferred_at = 0;
}

-- `calculateCellEntropy`: the number of possible states over 6
unfoldable pub calculate_cell_entropy : ParticipantCell → Ratio
calculate_cell_entropy cell = record { num = length cell.possible_states; den = 6 }

-- The sum of the entropies, in sixths.
unfoldable pub total_entropy : List ParticipantCell → ℕ
total_entropy [] = 0
total_entropy (c ∷ cs) = c.entropy + total_entropy cs

mean_entropy : List ParticipantCell → Ratio
mean_entropy [] = record { num = 0; den = 1 }
mean_entropy (c ∷ cs) = record { num = total_entropy (c ∷ cs); den = 6 * length (c ∷ cs) }

-- `calculateSessionEntropy`
unfoldable pub calculate_session_entropy : PerplexitySession → Ratio
unfolding mean_entropy total_entropy
calculate_session_entropy s = mean_entropy (values s.participants)

-- `getEntropyLevel`: below 0.33, below 0.66, the rest
unfoldable pub get_entropy_level : Ratio → EntropyLevel
get_entropy_level e =
    if less_than e 33 100 then low else if less_than e 66 100 then medium else high

-- `updateSessionEntropy`
unfoldable pub update_session_entropy : PerplexitySession → PerplexitySession
update_session_entropy s = record s {
  session_entropy = calculate_session_entropy s;
  entropy_level = get_entropy_level (calculate_session_entropy s);
}

-- `p.observedState === x`
abbrev pub observes : CognitiveState → ParticipantCell → Bool
observes x p = elim p.observed_state [ none ↦ false | some y ↦ y == x ]

abbrev pub grasps : ParticipantCell → Bool
grasps p = observes understood p || observes contributing p

abbrev is_high : EntropyLevel → Bool
is_high high = true
is_high _ = false

abbrev pub is_open_topic : TopicState → Bool
is_open_topic discussing = true
is_open_topic clarifying = true
is_open_topic _ = false

-- The conditions of `DEFAULT_CONSTRAINTS`, in order.
unfoldable pub many_confused : PerplexitySession → ℕ → Bool
many_confused s now =
    let people = values s.participants in
    let confused_count = length (keep (observes confused) people) in
    if length people == 0
    then false
    else at_least (record { num = confused_count; den = length people }) 4 10

unfoldable pub confused_thrice : PerplexitySession → ℕ → Bool
confused_thrice s now = any (λ p. leb 3 p.confusion_count) (values s.participants)

unfoldable pub can_teach : PerplexitySession → ℕ → Bool
can_teach s now =
    let people = values s.participants in
    if ltb (length people) 2
    then false
    else leb 1 (length (keep grasps people)) && leb 1 (length (keep (observes confused) people))

unfoldable pub high_entropy : PerplexitySession → ℕ → Bool
high_entropy s now = is_high s.entropy_level && more_than s.session_entropy 7 10

unfoldable pub someone_disengaged : PerplexitySession → ℕ → Bool
someone_disengaged s now =
    any (λ p. observes disengaged p && ltb (p.last_update + 30000) now) (values s.participants)

unfoldable pub all_understood : PerplexitySession → ℕ → Bool
all_understood s now =
    let people = values s.participants in
    if length people == 0
    then false
    else length (keep (observes understood) people) == length people

-- `DEFAULT_CONSTRAINTS`
unfoldable pub default_constraints : List WfcConstraint
default_constraints =
    record {
      id = "confusion_intervention";
      condition = many_confused;
      action = ai_intervention "많은 분들이 어려워하시는 것 같습니다. 제가 설명해드릴까요?" [];
      priority = 100;
      cooldown_ms = 60000;
      last_triggered = none;
    }
    ∷ record {
      id = "single_confusion_assist";
      condition = confused_thrice;
      action = ai_intervention "혹시 이해가 안 되는 부분이 있으신가요?" [];
      priority = 80;
      cooldown_ms = 45000;
      last_triggered = none;
    }
    ∷ record {
      id = "peer_teaching_opportunity";
      condition = can_teach;
      action = peer_teaching "" [] "";
      priority = 70;
      cooldown_ms = 120000;
      last_triggered = none;
    }
    ∷ record {
      id = "high_entropy_summary";
      condition = high_entropy;
      action = summary_request [] "다양한 의견이 오가고 있네요. 지금까지 내용을 정리해볼까요?";
      priority = 60;
      cooldown_ms = 180000;
      last_triggered = none;
    }
    ∷ record {
      id = "disengagement_boost";
      condition = someone_disengaged;
      action = engagement_boost [] "님은 어떻게 생각하세요?";
      priority = 50;
      cooldown_ms = 90000;
      last_triggered = none;
    }
    ∷ record {
      id = "all_understood_advance";
      condition = all_understood;
      action = follow_up_question "모두 이해하신 것 같네요! 더 깊이 들어가볼까요?" "topic_mastered" none;
      priority = 40;
      cooldown_ms = 60000;
      last_triggered = none;
    }
    ∷ []
