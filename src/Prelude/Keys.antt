-- ===== src/Prelude/Keys.antt =====
-- Equality of lists, for the keys of maps.
use mathlib.Core.Path.{◌≡◌, refl}
use mathlib.Core.Bool.{Bool, true, false, ◌&&◌}
use mathlib.Core.List.{List, [], ◌∷◌}
use native.Mathlib.Omega.{arith}
use aura_new_live_server.Prelude.Tests.{Comparable, ◌==◌}

module _ {ℓ} {A : Type ℓ} ⦃e : Comparable A⦄ where
  unfoldable pub list_beq : List A → List A → Bool
  list_beq [] [] = true
  list_beq [] (y ∷ ys) = false
  list_beq (x ∷ xs) [] = false
  list_beq (x ∷ xs) (y ∷ ys) = (x == y) && list_beq xs ys

  pub list_beq-true : (xs ys : List A) → list_beq xs ys ≡ true → xs ≡ ys
  unfolding list_beq
  list_beq-true [] [] h = refl
  list_beq-true [] (y ∷ ys) h = cc
  list_beq-true (x ∷ xs) [] h = cc
  list_beq-true (x ∷ xs) (y ∷ ys) h =
      let head = (e.equals_iff x y).0 (ground arith) in
      let tail = list_beq-true xs ys (ground arith) in cc

  pub list_beq_self : (xs : List A) → list_beq xs xs ≡ true
  unfolding list_beq
  list_beq_self [] = refl
  list_beq_self (x ∷ xs) = rw ((e.equals_iff x x).1 refl) (list_beq_self xs)

  instance abbrev pub list_eq : Comparable (List A)
  list_eq = record {
    equals = list_beq;
    equals_iff = λ xs ys. (list_beq-true xs ys, λ h. rw h (list_beq_self ys));
  }
