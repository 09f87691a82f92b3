-- ===== src/Perplexity/Wfc/Collapse.antt =====
-- perplexity/wfc-engine.service.ts: what an observation leaves possible, and the bounds of the entropy.
use aura_new_live_server.Prelude.{
  ℕ, ◌*◌, ◌≤◌, ◌<◌, ◌≡◌, refl, ◌≢◌, inl, inr, Bool, true, false, ◌&&◌, ◌||◌, List, [], ◌∷◌, arith,
  ◌==◌, if◌then◌else◌, Bool-cases, length, keep, Table, values, AllValues, nat_eq, String,
  string_eq,
}
use aura_new_live_server.Perplexity.{
  CognitiveState, state_eq, Ratio, at_least, ParticipantCell, PerplexitySession,
}
use aura_new_live_server.Perplexity.Wfc.{
  includes, is_compatible_state, settle, hinted, narrow, collapse_state, total_entropy,
  mean_entropy, calculate_session_entropy,
}
use aura_new_live_server.Perplexity.Wfc.Cells.{IsCell, length-le_of_IsDistinct, includes-concat}

includes-keep_eq :
    (p : CognitiveState → Bool) (x : CognitiveState) (xs : List CognitiveState)
    → includes x (keep p xs) ≡ (includes x xs && p x)
unfolding includes keep
includes-keep_eq p x [] = refl
includes-keep_eq p x (y ∷ ys) = elim (Bool-cases (x == y)) [
  | inl same ↦
      rw ((state_eq.equals_iff x y).0 same)
        (ground (arith, includes-keep_eq p y ys, state_eq.equals_iff y y))
  | inr other ↦ ground (arith, includes-keep_eq p x ys)
]

includes-hinted :
    (y x : CognitiveState) (xs : List CognitiveState)
    → includes x (hinted y xs) ≡ (includes x xs || x == y)
includes-hinted y x xs = elim (Bool-cases (includes y xs)) [
  | inl old ↦ rw old (elim (Bool-cases (x == y)) [
    | inl same ↦ rw ((state_eq.equals_iff x y).0 same) (ground arith)
    | inr other ↦ ground arith
  ])
  | inr new ↦ rw new (includes-concat x y xs)
]

includes-settle :
    (c : ParticipantCell) (states : List CognitiveState)
    → (settle c states).possible_states ≡ states
unfolding settle
includes-settle c [] = refl
includes-settle c (x ∷ []) = refl
includes-settle c (x ∷ y ∷ xs) = refl

-- After an observation a state is possible exactly if it is the observed one, when the confidence
-- is 0.7 or more; if it was possible and is the observed one or compatible with it, when it is 0.5
-- or more; if it was possible or is the observed one, when it is less.
pub includes-collapse_state :
    (c : ParticipantCell) (observed x : CognitiveState) (confidence : Ratio) (now : ℕ)
    → includes x (collapse_state c observed confidence now).possible_states ≡ (
        if at_least confidence 7 10
        then x == observed
        else if at_least confidence 1 2
        then includes x c.possible_states && (x == observed || is_compatible_state x observed)
        else includes x c.possible_states || x == observed)
unfolding collapse_state narrow includes
includes-collapse_state c observed x confidence now = elim (Bool-cases (at_least confidence 7 10)) [
  | inl sure ↦ rw sure (ground arith)
  | inr unsure ↦ rw unsure (elim (Bool-cases (at_least confidence 1 2)) [
    | inl likely ↦ rw likely (rw includes-settle (includes-keep_eq _ x c.possible_states))
    | inr unlikely ↦ rw unlikely (includes-hinted observed x c.possible_states)
  ])
]

-- A cell that is certain of one state and is told, with a confidence from 0.5 to below 0.7, of
-- another that the first is not compatible with has no possible state left, with entropy 0; the
-- state observed before stays, and a later observation of such confidence leaves the cell so.
pub collapse_state_contradiction :
    (c : ParticipantCell) (s observed later : CognitiveState) (confidence : Ratio) (now again : ℕ)
    → c.possible_states ≡ s ∷ []
    → s ≢ observed
    → is_compatible_state s observed ≡ false
    → at_least confidence 7 10 ≡ false
    → at_least confidence 1 2 ≡ true
    → let d = collapse_state c observed confidence now in
      (d.possible_states ≡ [])
      × (d.entropy ≡ 0)
      × (d.observed_state ≡ c.observed_state)
      × ((collapse_state d later confidence again).possible_states ≡ [])
unfolding collapse_state narrow keep settle
collapse_state_contradiction c s observed later confidence now again alone other apart unsure
      likely =
    ground (arith, state_eq.equals_iff s observed)

entropy-le : (c : ParticipantCell) → IsCell c → c.entropy ≤ 6
entropy-le c v = ground (arith, length-le_of_IsDistinct c.possible_states v.distinct)

total_entropy-le :
    (m : Table String ParticipantCell)
    → AllValues IsCell m
    → total_entropy (values m) ≤ 6 * length (values m)
unfolding total_entropy values
total_entropy-le [] h = omega arith
total_entropy-le ((id, c) ∷ m) h = omega (arith, entropy-le c h.0, total_entropy-le m h.1)

mean_entropy-le :
    (cs : List ParticipantCell)
    → total_entropy cs ≤ 6 * length cs
    → ((mean_entropy cs).num ≤ (mean_entropy cs).den) × (0 < (mean_entropy cs).den)
unfolding mean_entropy
mean_entropy-le [] h = omega arith
mean_entropy-le (c ∷ cs) h = (h, omega arith)

-- The entropy of a session whose cells are well formed lies between 0 and 1, also with no
-- participant, where its denominator is 1.
pub calculate_session_entropy-le :
    (s : PerplexitySession)
    → AllValues IsCell s.participants
    → let e = calculate_session_entropy s in (e.num ≤ e.den) × (0 < e.den)
unfolding calculate_session_entropy
calculate_session_entropy-le s h =
    mean_entropy-le (values s.participants) (total_entropy-le s.participants h)
