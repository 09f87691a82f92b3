-- ===== src/Prelude/Newest.antt =====
-- The last elements of a list, `xs.slice(-n)`, and bounded buffers.
use Prim.Native.Nat.{ℕ, zero, suc, ◌-◌, ◌≤◌, ◌<◌}
use mathlib.Core.Path.{◌≡◌, refl, sym, ap, ◌∙◌}
use mathlib.Core.Logic.{inl, inr}
use mathlib.Core.Bool.{Bool, true, false}
use mathlib.Core.List.{List, [], ◌∷◌, ◌++◌}
use native.Mathlib.Omega.{arith}
use aura_new_live_server.Prelude.Tests.{leb, if◌then◌else◌, Bool-cases}
use aura_new_live_server.Prelude.Lists.{length, keep, drop, length-append}

module _ {ℓ} {A : Type ℓ} where
  pub drop-append : (n : ℕ) (xs ys : List A) → n ≤ length xs → drop n (xs ++ ys) ≡ drop n xs ++ ys
  drop-append zero xs ys h = refl
  drop-append (suc n) [] ys h = absurd (omega arith)
  drop-append (suc n) (x ∷ xs) ys h = drop-append n xs ys (omega arith)

  drop-drop : (n : ℕ) (xs : List A) → drop 1 (drop n xs) ≡ drop (suc n) xs
  drop-drop zero xs = refl
  drop-drop (suc n) [] = refl
  drop-drop (suc n) (x ∷ xs) = drop-drop n xs

  pub length-drop : (n : ℕ) (xs : List A) → length (drop n xs) ≡ length xs - n
  length-drop zero xs = omega arith
  length-drop (suc n) [] = omega arith
  length-drop (suc n) (x ∷ xs) = omega (arith, length-drop n xs)

  pub length-keep : (test : A → Bool) (xs : List A) → length (keep test xs) ≤ length xs
  unfolding keep
  length-keep test [] = omega arith
  length-keep test (x ∷ xs) = ground (arith, length-keep test xs)

module _ {ℓ} {A : Type ℓ} (max : ℕ) where
  -- `xs.slice(-max)`, for a positive number
  unfoldable pub newest : List A → List A
  newest xs = drop (length xs - max) xs

  -- `if (xs.length >= max) xs.shift()`, and `xs.push(x)`
  unfoldable pub push_bounded : A → List A → List A
  push_bounded x xs = if leb max (length xs) then drop 1 xs ++ x ∷ [] else xs ++ x ∷ []

  pub length-newest : (xs : List A) → length (newest xs) ≤ max
  unfolding newest
  length-newest xs = omega (arith, length-drop (length xs - max) xs)

  pub newest_short : (xs : List A) → length xs ≤ max → newest xs ≡ xs
  unfolding newest
  newest_short xs short = let all : length xs - max ≡ 0 = omega arith in rw all refl

  -- Pushing on the last ones keeps the last ones.
  pub push_bounded-newest :
      (x : A) (xs : List A) → 0 < max → push_bounded x (newest xs) ≡ newest (xs ++ x ∷ [])
  unfolding push_bounded newest
  push_bounded-newest x xs some_room =
      let longer = length-append xs (x ∷ []) in
      elim (Bool-cases (leb max (length xs))) [
        | inl full ↦
            let k = length xs - max in
            let test : leb max (length (drop k xs)) ≡ true = ground (arith, length-drop k xs) in
            let more : length (xs ++ x ∷ []) - max ≡ suc k = ground (arith, longer) in
            rw (test, more)
              (ap (λ ys. ys ++ x ∷ []) (drop-drop k xs)
                ∙ sym (drop-append (suc k) xs (x ∷ []) (ground arith)))
        | inr room_left ↦
            let none_dropped : length xs - max ≡ 0 = ground arith in
            let none_more : length (xs ++ x ∷ []) - max ≡ 0 = ground (arith, longer) in
            rw (none_dropped, none_more, room_left) refl
      ]

  pub push_bounded_short :
      (x : A) (xs : List A) → length xs < max → push_bounded x xs ≡ xs ++ x ∷ []
  unfolding push_bounded
  push_bounded_short x xs short =
      let test : leb max (length xs) ≡ false = ground arith in rw test refl
