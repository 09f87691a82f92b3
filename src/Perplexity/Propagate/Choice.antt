-- ===== src/Perplexity/Propagate/Choice.antt =====
-- perplexity/wfc-engine.service.ts: which rule `propagate` runs.
use mathlib.Core.Bool.{Bool-set}
use mathlib.Core.Logic.Or
use mathlib.Core.List.{Mem, Perm, mem-cons, mem-cons_self, mem-cons_of_mem, not-mem-nil}
use mathlib.Core.List.Perm
use native.Mathlib.Bridge.{le_prop}
use aura_new_live_server.Prelude.{
  ℕ, ◌≤◌, ◌≡◌, inl, inr, Bool, true, false, none, some, List, [], ◌∷◌, arith, leb, Bool-cases,
  Option-cases, nat_eq, string_eq, find,
}
use aura_new_live_server.Perplexity.{PerplexitySession, WfcConstraint}
use aura_new_live_server.Perplexity.Propagate.{
  place, sort_constraints, is_ready, trigger, result_of, cooled, chosen, propagate, build_action,
}

place-perm : (c : WfcConstraint) (ds : List WfcConstraint) → Perm (place c ds) (c ∷ ds)
unfolding place
place-perm c [] = Perm.refl (c ∷ [])
place-perm c (d ∷ ds) = elim (Bool-cases (leb d.priority c.priority)) [
  | inl here ↦ rw here (Perm.refl (c ∷ d ∷ ds))
  | inr later ↦ rw later (Perm.trans (Perm.cons d (place-perm c ds)) (Perm.swap c d ds))
]

sort_constraints-perm : (cs : List WfcConstraint) → Perm (sort_constraints cs) cs
unfolding sort_constraints
sort_constraints-perm [] = Perm.refl []
sort_constraints-perm (c ∷ cs) =
    Perm.trans (place-perm c (sort_constraints cs)) (Perm.cons c (sort_constraints-perm cs))

-- Every rule of the list has at most this priority.
abbrev AtMost : ℕ → List WfcConstraint → Type 0
AtMost n [] = Unit {0}
AtMost n (d ∷ ds) = (d.priority ≤ n) × AtMost n ds

abbrev IsFalling : List WfcConstraint → Type 0
IsFalling [] = Unit {0}
IsFalling (c ∷ cs) = AtMost c.priority cs × IsFalling cs

AtMost-mono : (m n : ℕ) (ds : List WfcConstraint) → m ≤ n → AtMost m ds → AtMost n ds
AtMost-mono m n [] h a = tt
AtMost-mono m n (d ∷ ds) h a = (omega arith, AtMost-mono m n ds h a.1)

AtMost-place :
    (n : ℕ) (c : WfcConstraint) (ds : List WfcConstraint)
    → c.priority ≤ n
    → AtMost n ds
    → AtMost n (place c ds)
unfolding place
AtMost-place n c [] h a = (h, tt)
AtMost-place n c (d ∷ ds) h a = elim (Bool-cases (leb d.priority c.priority)) [
  | inl here ↦ rw here (h, a)
  | inr later ↦ rw later (a.0, AtMost-place n c ds h a.1)
]

place-IsFalling :
    (c : WfcConstraint) (ds : List WfcConstraint) → IsFalling ds → IsFalling (place c ds)
unfolding place
place-IsFalling c [] f = (tt, tt)
place-IsFalling c (d ∷ ds) f = elim (Bool-cases (leb d.priority c.priority)) [
  | inl here ↦
      let below : d.priority ≤ c.priority = ground arith in
      rw here ((below, AtMost-mono d.priority c.priority ds below f.0), f)
  | inr later ↦ rw later (AtMost-place d.priority c ds (ground arith) f.0, place-IsFalling c ds f.1)
]

sort_constraints-IsFalling : (cs : List WfcConstraint) → IsFalling (sort_constraints cs)
unfolding sort_constraints
sort_constraints-IsFalling [] = tt
sort_constraints-IsFalling (c ∷ cs) =
    place-IsFalling c (sort_constraints cs) (sort_constraints-IsFalling cs)

AtMost-mem :
    (n : ℕ) (d : WfcConstraint) (ds : List WfcConstraint) → AtMost n ds → Mem d ds → d.priority ≤ n
AtMost-mem n d [] a m = absurd (not-mem-nil m)
AtMost-mem n d (e ∷ ds) a m = Or.elim le_prop (mem-cons.0 m) (λ q. rw q a.0) (AtMost-mem n d ds a.1)

find-mem :
    (p : WfcConstraint → Bool) (c : WfcConstraint) (cs : List WfcConstraint)
    → find p cs ≡ some c
    → Mem c cs × (p c ≡ true)
unfolding find
find-mem p c [] e = cc
find-mem p c (d ∷ cs) e = elim (Bool-cases (p d)) [
  | inl hit ↦ let same : d ≡ c = ground arith in rw (← same) (mem-cons_self, hit)
  | inr miss ↦ let later = find-mem p c cs (rw miss at e) in (mem-cons_of_mem d later.0, later.1)
]

find-first :
    (p : WfcConstraint → Bool) (c d : WfcConstraint) (cs : List WfcConstraint)
    → find p cs ≡ some c
    → IsFalling cs
    → p d ≡ true
    → Mem d cs
    → d.priority ≤ c.priority
unfolding find
find-first p c d [] e f h m = absurd (not-mem-nil m)
find-first p c d (x ∷ cs) e f h m = elim (Bool-cases (p x)) [
  | inl hit ↦
      let same : x ≡ c = ground arith in
      Or.elim le_prop (mem-cons.0 m) (λ q. rw (q, same) (omega arith))
        (λ later. rw (← same) (AtMost-mem x.priority d cs f.0 later))
  | inr miss ↦
      Or.elim le_prop (mem-cons.0 m) (λ q. absurd (cc)) (find-first p c d cs (rw miss at e) f.1 h)
]

find-none :
    (p : WfcConstraint → Bool) (d : WfcConstraint) (cs : List WfcConstraint)
    → find p cs ≡ none
    → Mem d cs
    → p d ≡ false
unfolding find
find-none p d [] e m = absurd (not-mem-nil m)
find-none p d (x ∷ cs) e m = elim (Bool-cases (p x)) [
  | inl hit ↦ absurd (ground arith)
  | inr miss ↦
      Or.elim (Bool-set _ _) (mem-cons.0 m) (λ q. rw q miss) (find-none p d cs (rw miss at e))
]

-- The rule that is run is one of the rules, is ready, and no ready rule has a higher priority.
pub chosen-some :
    (cs : List WfcConstraint) (s : PerplexitySession) (now : ℕ) (c : WfcConstraint)
    → chosen cs s now ≡ some c
    → Mem c cs
      × (is_ready s now c ≡ true)
      × ((d : WfcConstraint) → Mem d cs → is_ready s now d ≡ true → d.priority ≤ c.priority)
unfolding chosen
chosen-some cs s now c e =
    let sorted = sort_constraints cs in
    let found = find-mem (is_ready s now) c sorted e in
    let perm = sort_constraints-perm cs in
    (
      (Perm.mem_iff perm).0 found.0,
      found.1,
      λ d m ready.
          find-first (is_ready s now) c d sorted e (sort_constraints-IsFalling cs) ready
            ((Perm.mem_iff perm).1 m),
    )

chosen-none :
    (cs : List WfcConstraint) (s : PerplexitySession) (now : ℕ)
    → chosen cs s now ≡ none
    → (d : WfcConstraint) → Mem d cs
    → is_ready s now d ≡ false
unfolding chosen
chosen-none cs s now e d m =
    find-none (is_ready s now) d (sort_constraints cs) e
      ((Perm.mem_iff (sort_constraints-perm cs)).1 m)

-- What a propagation answers: either no rule is ready, there is no action and the rules are as they
-- were; or one rule is run, of the highest priority among the ready ones, its identifier and its
-- action are the whole answer, and it alone gets the time.
pub data Propagates (cs : List WfcConstraint) (s : PerplexitySession) (now : ℕ) : Type 0 where
  rests :
      ((d : WfcConstraint) → Mem d cs → is_ready s now d ≡ false)
      → (propagate cs s now).0.triggered_constraints ≡ []
      → (propagate cs s now).0.actions ≡ []
      → (propagate cs s now).1 ≡ cs
      → Propagates cs s now
  acts :
      (c : WfcConstraint)
      → Mem c cs
      → is_ready s now c ≡ true
      → ((d : WfcConstraint) → Mem d cs → is_ready s now d ≡ true → d.priority ≤ c.priority)
      → (propagate cs s now).0.triggered_constraints ≡ c.id ∷ []
      → (propagate cs s now).0.actions ≡ build_action c s ∷ []
      → (propagate cs s now).1 ≡ trigger c.id now cs
      → Propagates cs s now

-- Every propagation either runs no rule, and then none is ready and nothing changes, or runs one
-- rule that is ready and has the highest priority of those, and then only the time of that rule
-- changes.
pub propagate-Propagates :
    (cs : List WfcConstraint) (s : PerplexitySession) (now : ℕ) → Propagates cs s now
unfolding propagate
propagate-Propagates cs s now = elim (Option-cases (chosen cs s now)) [
  | inl e ↦
      rests (chosen-none cs s now e) (rw (e, propagate, result_of)) (rw (e, propagate, result_of))
        (rw (e, propagate, cooled))
  | inr (c, e) ↦
      let found = chosen-some cs s now c e in
      acts c found.0 found.1 found.2 (rw (e, propagate, result_of)) (rw (e, propagate, result_of))
        (rw (e, propagate, cooled))
]
