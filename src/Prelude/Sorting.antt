-- ===== src/Prelude/Sorting.antt =====
-- `xs.sort(compare)`, which is stable.
use mathlib.Core.Path.{◌≡◌, refl}
use mathlib.Core.Logic.{inl, inr}
use mathlib.Core.Bool.{Bool, true, false}
use mathlib.Core.List.{List, [], ◌∷◌, Perm}
use mathlib.Core.List.Perm
use aura_new_live_server.Prelude.Tests.{if◌then◌else◌, Bool-cases}

-- `later x y` is `compare(x, y) > 0`.
module _ {ℓ} {A : Type ℓ} (later : A → A → Bool) where
  unfoldable pub place : A → List A → List A
  place x [] = x ∷ []
  place x (y ∷ ys) = let below = y ∷ place x ys in if later x y then below else x ∷ y ∷ ys

  unfoldable pub sort_by : List A → List A
  unfolding place
  sort_by [] = []
  sort_by (x ∷ xs) = place x (sort_by xs)

  place-perm : (x : A) (xs : List A) → Perm (place x xs) (x ∷ xs)
  unfolding place
  place-perm x [] = Perm.refl (x ∷ [])
  place-perm x (y ∷ ys) = elim (Bool-cases (later x y)) [
    | inl after ↦ rw after (Perm.trans (Perm.cons y (place-perm x ys)) (Perm.swap x y ys))
    | inr before ↦ rw before (Perm.refl (x ∷ y ∷ ys))
  ]

  pub sort_by-perm : (xs : List A) → Perm (sort_by xs) xs
  unfolding sort_by
  sort_by-perm [] = Perm.refl []
  sort_by-perm (x ∷ xs) = Perm.trans (place-perm x (sort_by xs)) (Perm.cons x (sort_by-perm xs))

module _ {ℓ κ} {A : Type ℓ} (R : A → A → Type κ) where
  -- `R x y` for every `y` of the list.
  abbrev pub AllAfter : A → List A → Type κ
  AllAfter x [] = Unit
  AllAfter x (y ∷ ys) = R x y × AllAfter x ys

  abbrev pub IsSorted : List A → Type κ
  IsSorted [] = Unit
  IsSorted (x ∷ xs) = AllAfter x xs × IsSorted xs

  module _ (trans : (x y z : A) → R x y → R y z → R x z) where
    AllAfter-trans : (x y : A) (ys : List A) → R x y → AllAfter y ys → AllAfter x ys
    AllAfter-trans x y [] r h = tt
    AllAfter-trans x y (z ∷ zs) r h = (trans x y z r h.0, AllAfter-trans x y zs r h.1)

    module _ (later : A → A → Bool) (after : (x y : A) → later x y ≡ true → R y x)
        (before : (x y : A) → later x y ≡ false → R x y) where
      place-AllAfter :
          (z x : A) (xs : List A) → R z x → AllAfter z xs → AllAfter z (place later x xs)
      unfolding place
      place-AllAfter z x [] r h = (r, tt)
      place-AllAfter z x (y ∷ ys) r h = elim (Bool-cases (later x y)) [
        | inl down ↦ rw down (h.0, place-AllAfter z x ys r h.1)
        | inr first ↦ rw first (r, h)
      ]

      place-IsSorted : (x : A) (xs : List A) → IsSorted xs → IsSorted (place later x xs)
      unfolding place
      place-IsSorted x [] s = (tt, tt)
      place-IsSorted x (y ∷ ys) s = elim (Bool-cases (later x y)) [
        | inl down ↦ rw down (place-AllAfter y x ys (after x y down) s.0, place-IsSorted x ys s.1)
        | inr first ↦ let r = before x y first in rw first ((r, AllAfter-trans x y ys r s.0), s)
      ]

      pub sort_by-IsSorted : (xs : List A) → IsSorted (sort_by later xs)
      unfolding sort_by
      sort_by-IsSorted [] = tt
      sort_by-IsSorted (x ∷ xs) = place-IsSorted x (sort_by later xs) (sort_by-IsSorted xs)

  -- What is in order stays as it is.
  module _ (later : A → A → Bool) (first : (x y : A) → R x y → later x y ≡ false) where
    pub sort_by_same : (xs : List A) → IsSorted xs → sort_by later xs ≡ xs
    unfolding sort_by place
    sort_by_same [] s = refl
    sort_by_same (x ∷ []) s = refl
    sort_by_same (x ∷ y ∷ ys) s = rw (sort_by_same (y ∷ ys) s.1) (rw (first x y s.0.0) refl)
