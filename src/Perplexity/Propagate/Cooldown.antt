-- ===== src/Perplexity/Propagate/Cooldown.antt =====
-- perplexity/wfc-engine.service.ts: how soon a rule may run again.
use mathlib.Core.Bool.{Bool-set}
use mathlib.Core.Logic.Or
use mathlib.Core.List.{Mem, mem-cons, not-mem-nil}
use aura_new_live_server.Prelude.{
  ℕ, ◌+◌, ◌<◌, ◌≡◌, ◌≢◌, inl, inr, String, true, some, List, [], ◌∷◌, arith, ◌==◌, if◌then◌else◌,
  Bool-cases, nat_eq, string_eq,
}
use aura_new_live_server.Perplexity.{PerplexitySession, WfcConstraint}
use aura_new_live_server.Perplexity.Propagate.{is_cooling, trigger, cooled, chosen, propagate}
use aura_new_live_server.Perplexity.Propagate.Choice.{Propagates, rests, acts, propagate-Propagates}

-- Rules with one identifier rest equally long.
abbrev pub IsRuleSet : List WfcConstraint → String → ℕ → Type 0
IsRuleSet [] id rest = Unit {0}
IsRuleSet (d ∷ ds) id rest = (d.id ≡ id → d.cooldown_ms ≡ rest) × IsRuleSet ds id rest

triggered_cooling :
    (id : String) (rest now later : ℕ) (c d : WfcConstraint)
    → (c.id ≡ id → c.cooldown_ms ≡ rest)
    → 0 < now
    → later < now + rest
    → d ≡ (if c.id == id then record c { last_triggered = some now } else c)
    → d.id ≡ id
    → is_cooling d later ≡ true
unfolding is_cooling
triggered_cooling id rest now later c d same_rest pos soon q e = elim (Bool-cases (c.id == id)) [
  | inl same ↦
      let same_id : c.id ≡ id = (string_eq.equals_iff c.id id).0 same in
      let rests : c.cooldown_ms ≡ rest = same_rest same_id in rw q (rw same (ground arith))
  | inr other ↦
      let kept : d ≡ c = rw other at q in
      let same_id : c.id ≡ id = cc in absurd (ground (arith, string_eq.equals_iff c.id id))
]

mem-trigger_cooling :
    (id : String) (rest now later : ℕ) (d : WfcConstraint) (cs : List WfcConstraint)
    → IsRuleSet cs id rest
    → 0 < now
    → later < now + rest
    → Mem d (trigger id now cs)
    → d.id ≡ id
    → is_cooling d later ≡ true
unfolding trigger
mem-trigger_cooling id rest now later d [] u pos soon m e = absurd (not-mem-nil m)
mem-trigger_cooling id rest now later d (c ∷ cs) u pos soon m e =
    Or.elim (Bool-set _ _) (mem-cons.0 m)
      (λ q. triggered_cooling id rest now later c d u.0 pos soon q e)
      (λ r. mem-trigger_cooling id rest now later d cs u.1 pos soon r e)

propagate-rules :
    (cs : List WfcConstraint) (s : PerplexitySession) (now : ℕ) (c : WfcConstraint)
    → chosen cs s now ≡ some c
    → (propagate cs s now).1 ≡ trigger c.id now cs
unfolding propagate
propagate-rules cs s now c e = rw (e, cooled)

Propagates-cooling :
    (cs : List WfcConstraint) (s : PerplexitySession) (now : ℕ) (id : String)
    → Propagates cs s now
    → ((d : WfcConstraint) → Mem d cs → d.id ≡ id → is_cooling d now ≡ true)
    → (propagate cs s now).0.triggered_constraints ≢ id ∷ []
Propagates-cooling cs s now id (rests _ none_run _ _) cooling again = cc
Propagates-cooling cs s now id (acts d m ready _ run _ _) cooling again =
    let same : d.id ≡ id = cc in ground (arith, cooling d m same)

-- A rule that ran at a time after 0, where rules with its identifier rest equally long, is not the
-- one that the next propagation runs, of whatever session, if that is before its cooldown is over.
pub propagate_cooldown :
    (cs : List WfcConstraint) (s s' : PerplexitySession) (now later : ℕ) (c : WfcConstraint)
    → chosen cs s now ≡ some c
    → IsRuleSet cs c.id c.cooldown_ms
    → 0 < now
    → later < now + c.cooldown_ms
    → (propagate (propagate cs s now).1 s' later).0.triggered_constraints ≢ c.id ∷ []
propagate_cooldown cs s s' now later c e u pos soon again =
    let rules = propagate-rules cs s now c e in
    Propagates-cooling (propagate cs s now).1 s' later c.id (propagate-Propagates _ s' later)
      (λ d m same.
        mem-trigger_cooling c.id c.cooldown_ms now later d cs u pos soon (rw rules at m) same)
      again
