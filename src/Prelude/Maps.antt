-- ===== src/Prelude/Maps.antt =====
-- The language's `Map`: entries in order of insertion, one for each key.
use mathlib.Core.Path.{◌≡◌, refl, ap, subst}
use mathlib.Core.Logic.{inl, inr}
use mathlib.Core.Bool.{Bool, false}
use mathlib.Core.List.{List, [], ◌∷◌}
use mathlib.Core.Option.{Option, none, some}
use native.Mathlib.Omega.{arith}
use aura_new_live_server.Prelude.Tests.{
  Comparable, ◌==◌, if◌then◌else◌, ==_refl, Bool-cases, is_some,
}

abbrev pub Table {ℓ κ} : Type ℓ → Type κ → Type (ℓ ⊔ κ)
Table K V = List (K × V)

module _ {ℓ κ} {K : Type ℓ} {V : Type κ} ⦃e : Comparable K⦄ where
  -- `m.get(k)`
  unfoldable pub get : K → Table K V → Option V
  get k [] = none
  get k ((j, v) ∷ m) = if j == k then some v else get k m

  -- `m.has(k)`
  abbrev pub has : K → Table K V → Bool
  has k m = is_some (get k m)

  -- `m.set(k, v)`: an old key keeps its place, a new one goes to the end.
  unfoldable pub set : K → V → Table K V → Table K V
  set k v [] = (k, v) ∷ []
  set k v ((j, w) ∷ m) = if j == k then (k, v) ∷ m else (j, w) ∷ set k v m

  -- `m.delete(k)`
  unfoldable pub delete : K → Table K V → Table K V
  delete k [] = []
  delete k ((j, v) ∷ m) = let rest = delete k m in if j == k then rest else (j, v) ∷ rest

  -- `Array.from(m.values())`
  unfoldable pub values : Table K V → List V
  values [] = []
  values ((j, v) ∷ m) = v ∷ values m

  -- `Array.from(m.keys())`
  unfoldable pub keys : Table K V → List K
  keys [] = []
  keys ((j, v) ∷ m) = j ∷ keys m

  pub get-set :
      (k j : K) (v : V) (m : Table K V) → get j (set k v m) ≡ (if k == j then some v else get j m)
  unfolding get set
  get-set k j v [] = refl
  get-set k j v ((i, w) ∷ m) =
      ground (arith, e.equals_iff k j, e.equals_iff i k, e.equals_iff i j, get-set k j v m)

  pub get-delete :
      (k j : K) (m : Table K V) → get j (delete k m) ≡ (if k == j then none else get j m)
  unfolding get delete
  get-delete k j [] = ground arith
  get-delete k j ((i, w) ∷ m) =
      ground (arith, e.equals_iff k j, e.equals_iff i k, e.equals_iff i j, get-delete k j m)

  pub set-set : (k : K) (v w : V) (m : Table K V) → set k v (set k w m) ≡ set k v m
  unfolding set
  set-set k v w [] = rw (==_refl k) refl
  set-set k v w ((j, u) ∷ m) = elim (Bool-cases (j == k)) [
    | inl same ↦ rw same (rw (==_refl k) refl)
    | inr other ↦ rw other (rw other (ap (λ rest. (j, u) ∷ rest) (set-set k v w m)))
  ]

  pub get-set_self : (k : K) (v : V) (m : Table K V) → get k (set k v m) ≡ some v
  get-set_self k v m = rw (get-set k k v m) (rw (==_refl k))

  pub get-delete_self : (k : K) (m : Table K V) → get k (delete k m) ≡ none
  get-delete_self k m = rw (get-delete k k m) (rw (==_refl k))

  pub get-set_ne :
      (k j : K) (v : V) (m : Table K V) → (k == j) ≡ false → get j (set k v m) ≡ get j m
  get-set_ne k j v m h = rw (get-set k j v m) (rw h)

  pub get-delete_ne : (k j : K) (m : Table K V) → (k == j) ≡ false → get j (delete k m) ≡ get j m
  get-delete_ne k j m h = rw (get-delete k j m) (rw h)

  module _ {μ} (P : V → Type μ) where
    -- `P` holds of every value of the table.
    abbrev pub AllValues : Table K V → Type μ
    AllValues [] = Unit
    AllValues ((j, v) ∷ m) = P v × AllValues m

    pub AllValues-set : (k : K) (v : V) (m : Table K V) → P v → AllValues m → AllValues (set k v m)
    unfolding set
    AllValues-set k v [] p h = (p, tt)
    AllValues-set k v ((j, w) ∷ m) p h = elim (Bool-cases (j == k)) [
      | inl same ↦ rw same (p, h.1)
      | inr other ↦ rw other (h.0, AllValues-set k v m p h.1)
    ]

    pub AllValues-delete : (k : K) (m : Table K V) → AllValues m → AllValues (delete k m)
    unfolding delete
    AllValues-delete k [] h = tt
    AllValues-delete k ((j, w) ∷ m) h = elim (Bool-cases (j == k)) [
      | inl same ↦ rw same (AllValues-delete k m h.1)
      | inr other ↦ rw other (h.0, AllValues-delete k m h.1)
    ]

    pub AllValues-get : (k : K) (m : Table K V) {v : V} → AllValues m → get k m ≡ some v → P v
    unfolding get
    AllValues-get k [] h found = cc
    AllValues-get k ((j, w) ∷ m) {v} h found = elim (Bool-cases (j == k)) [
      | inl same ↦ let hit : w ≡ v = ground arith in subst P hit h.0
      | inr other ↦ AllValues-get k m h.1 (rw other at found)
    ]
