-- ===== src/Perplexity/Wfc/Cells.antt =====
-- perplexity/wfc-engine.service.ts: the possible states of a cell and their entropy.
use aura_new_live_server.Prelude.{
  ℕ, suc, ◌+◌, ◌≤◌, ◌≡◌, refl, ◌⊎◌, inl, inr, Bool, false, ◌||◌, List, [], ◌∷◌, ◌++◌, arith, ◌==◌,
  if◌then◌else◌, Bool-cases, length, keep, nat_eq, string_eq,
}
use aura_new_live_server.Perplexity.{
  CognitiveState, confused, absorbing, thinking, contributing, understood, disengaged, state_eq,
  Ratio, at_least, ParticipantCell,
}
use aura_new_live_server.Perplexity.Wfc.{
  includes, settle, hinted, narrow, collapse_state, create_participant_cell,
}

-- No state is listed twice.
abbrev pub IsDistinct : List CognitiveState → Type 0
IsDistinct [] = Unit {0}
IsDistinct (x ∷ xs) = (includes x xs ≡ false) × IsDistinct xs

-- A cell's states are distinct, and its entropy is their number, or 0 where one state is left: a hint of
-- low confidence gives such a cell the entropy of its number again.
pub record IsCell (c : ParticipantCell) : Type 0 where
  pub distinct : IsDistinct c.possible_states
  pub measured :
      ((length c.possible_states ≡ 1) × (c.entropy ≡ 0)) ⊎ (c.entropy ≡ length c.possible_states)

-- The number of states of the six that a list includes.
flag : CognitiveState → List CognitiveState → ℕ
flag s xs = if includes s xs then 1 else 0

census : List CognitiveState → ℕ
unfolding flag
census xs =
    flag confused xs
    + flag absorbing xs
    + flag thinking xs
    + flag contributing xs
    + flag understood xs
    + flag disengaged xs

census-cons :
    (x : CognitiveState) (xs : List CognitiveState)
    → includes x xs ≡ false
    → census (x ∷ xs) ≡ suc (census xs)
unfolding census includes
census-cons confused xs h = rw h (omega arith)
census-cons absorbing xs h = rw h (omega arith)
census-cons thinking xs h = rw h (omega arith)
census-cons contributing xs h = rw h (omega arith)
census-cons understood xs h = rw h (omega arith)
census-cons disengaged xs h = rw h (omega arith)

length-eq-census : (xs : List CognitiveState) → IsDistinct xs → length xs ≡ census xs
length-eq-census [] d = unfold census includes in refl
length-eq-census (x ∷ xs) d = omega (arith, length-eq-census xs d.1, census-cons x xs d.0)

census-le : (xs : List CognitiveState) → census xs ≤ 6
unfolding census
census-le xs = ground arith

-- At most six states are possible.
pub length-le_of_IsDistinct : (xs : List CognitiveState) → IsDistinct xs → length xs ≤ 6
length-le_of_IsDistinct xs d = omega (arith, length-eq-census xs d, census-le xs)

includes-keep :
    (p : CognitiveState → Bool) (x : CognitiveState) (xs : List CognitiveState)
    → includes x xs ≡ false
    → includes x (keep p xs) ≡ false
unfolding includes keep
includes-keep p x [] h = refl
includes-keep p x (y ∷ ys) h = ground (arith, includes-keep p x ys)

keep-IsDistinct :
    (p : CognitiveState → Bool) (xs : List CognitiveState) → IsDistinct xs → IsDistinct (keep p xs)
unfolding keep
keep-IsDistinct p [] d = tt
keep-IsDistinct p (x ∷ xs) d = elim (Bool-cases (p x)) [
  | inl kept ↦ rw kept (includes-keep p x xs d.0, keep-IsDistinct p xs d.1)
  | inr dropped ↦ rw dropped (keep-IsDistinct p xs d.1)
]

pub includes-concat :
    (x y : CognitiveState) (xs : List CognitiveState)
    → includes x (xs ++ y ∷ []) ≡ (includes x xs || x == y)
unfolding includes
includes-concat x y [] = ground arith
includes-concat x y (z ∷ zs) = ground (arith, includes-concat x y zs)

concat-IsDistinct :
    (xs : List CognitiveState) (y : CognitiveState)
    → IsDistinct xs
    → includes y xs ≡ false
    → IsDistinct (xs ++ y ∷ [])
unfolding includes
concat-IsDistinct [] y d h = (refl, tt)
concat-IsDistinct (x ∷ xs) y d h = (
  ground (arith, includes-concat x y xs, state_eq.equals_iff x y, state_eq.equals_iff y x),
  concat-IsDistinct xs y d.1 (ground arith),
)

hinted-IsDistinct :
    (y : CognitiveState) (xs : List CognitiveState) → IsDistinct xs → IsDistinct (hinted y xs)
hinted-IsDistinct y xs d = elim (Bool-cases (includes y xs)) [
  | inl old ↦ rw old d
  | inr new ↦ rw new (concat-IsDistinct xs y d new)
]

pub create_participant_cell-IsCell :
    (id name : _) (now : ℕ) → IsCell (create_participant_cell id name now)
unfolding create_participant_cell includes
create_participant_cell-IsCell id name now = record {
  distinct = (refl, (refl, (refl, (refl, (refl, (refl, tt))))));
  measured = inr refl;
}

settle-IsCell :
    (c : ParticipantCell) (states : List CognitiveState)
    → IsDistinct states
    → IsCell (settle c states)
unfolding settle
settle-IsCell c [] d = record { distinct = d; measured = inr refl }
settle-IsCell c (x ∷ []) d = record { distinct = d; measured = inl (refl, refl) }
settle-IsCell c (x ∷ y ∷ xs) d = record { distinct = d; measured = inr refl }

narrow-IsCell :
    (c : ParticipantCell) (observed : CognitiveState) (confidence : Ratio)
    → IsCell c
    → IsCell (narrow c observed confidence)
unfolding narrow includes
narrow-IsCell c observed confidence v = elim (Bool-cases (at_least confidence 7 10)) [
  | inl sure ↦ rw sure (record { distinct = (refl, tt); measured = inl (refl, refl) })
  | inr unsure ↦ rw unsure (elim (Bool-cases (at_least confidence 1 2)) [
    | inl likely ↦ rw likely (settle-IsCell c _ (keep-IsDistinct _ c.possible_states v.distinct))
    | inr unlikely ↦ rw unlikely (record {
      distinct = hinted-IsDistinct observed c.possible_states v.distinct;
      measured = inr refl;
    })
  ])
]

-- An observation of any confidence keeps a cell's states distinct and its entropy their measure.
pub collapse_state-IsCell :
    (c : ParticipantCell) (observed : CognitiveState) (confidence : Ratio) (now : ℕ)
    → IsCell c
    → IsCell (collapse_state c observed confidence now)
unfolding collapse_state
collapse_state-IsCell c observed confidence now v =
    let n = narrow-IsCell c observed confidence v in
    record { distinct = n.distinct; measured = n.measured }
