-- ===== src/Intent/Similarity.antt =====
-- intent/intent-classifier.service.ts: what a similarity is.
use aura_new_live_server.Prelude.{
  Text, ℕ, zero, suc, ◌+◌, ◌*◌, ◌-◌, ◌≡◌, ◌≤◌, ◌<◌, refl, ◌∙◌, ap, inl, inr, Bool, true, false,
  ◌||◌, [], ◌∷◌, length, ltb, ◌==◌, ==_refl, ==_sym, if◌then◌else◌, nat_eq, arith, Bool-cases,
}
use aura_new_live_server.Intent.Hangul.{
  decompose_hangul, lists, is_similar_jamo, letter_score, matches, max, min, similarity_of,
  letters_similarity, jamo_similarity, Similarity,
}

or_comm : (x y z : Bool) → (x || (y || z)) ≡ (x || (z || y))
or_comm x y z = ground arith

is_similar_jamo_comm : (a b : ℕ) → is_similar_jamo a b ≡ is_similar_jamo b a
unfolding is_similar_jamo
is_similar_jamo_comm a b =
    ap (λ x. x || (lists a b || lists b a)) (==_sym a b) ∙ or_comm (b == a) (lists a b) (lists b a)

letter_score_comm : (a b : ℕ) → letter_score a b ≡ letter_score b a
unfolding letter_score
letter_score_comm a b =
    λ i. if ==_sym a b i then 10 else if is_similar_jamo_comm a b i then 6 else 0

tenths_bound : (x y : Bool) → (if x then 10 else if y then 6 else 0) ≤ 10
tenths_bound true y = omega arith
tenths_bound false true = omega arith
tenths_bound false false = omega arith

letter_score_bound : (a b : ℕ) → letter_score a b ≤ 10
unfolding letter_score
letter_score_bound a b = tenths_bound (a == b) (is_similar_jamo a b)

letter_score_self : (a : ℕ) → letter_score a a ≡ 10
unfolding letter_score
letter_score_self a = rw (==_refl a) refl

matches_comm : (as_ bs : Text) → matches as_ bs ≡ matches bs as_
unfolding matches
matches_comm [] [] = refl
matches_comm [] (b ∷ bs) = refl
matches_comm (a ∷ as_) [] = refl
matches_comm (a ∷ as_) (b ∷ bs) = λ i. letter_score_comm a b i + matches_comm as_ bs i

matches_bound : (as_ bs : Text) → matches as_ bs ≤ 10 * length as_
unfolding matches
matches_bound [] bs = omega arith
matches_bound (a ∷ as_) [] = omega arith
matches_bound (a ∷ as_) (b ∷ bs) = omega (arith, letter_score_bound a b, matches_bound as_ bs)

matches_self : (as_ : Text) → matches as_ as_ ≡ 10 * length as_
unfolding matches
matches_self [] = refl
matches_self (a ∷ as_) = omega (arith, letter_score_self a, matches_self as_)

-- The similarity of a text with so many letters to itself.
abbrev pub whole : ℕ → Similarity
whole zero = (0, 1)
whole (suc n) = (10 * suc n, suc n)

max_comm : (n m : ℕ) → max n m ≡ max m n
max_comm n m = ground arith

min_comm : (n m : ℕ) → min n m ≡ min m n
min_comm n m = ground arith

letters_similarity_comm : (as_ bs : Text) → letters_similarity as_ bs ≡ letters_similarity bs as_
unfolding letters_similarity
letters_similarity_comm as_ bs = λ i.
    similarity_of (max_comm (length as_) (length bs) i) (min_comm (length as_) (length bs) i)
      (matches_comm as_ bs i)

similarity_of_bound :
    (longest shortest tenths : ℕ)
    → tenths ≤ 10 * longest
    → let s = similarity_of longest shortest tenths in (0 < s.1) × (s.0 ≤ 10 * s.1)
unfolding similarity_of
similarity_of_bound longest shortest tenths h = elim (Bool-cases (longest == 0)) [
  | inl none_there ↦ rw none_there (omega arith, omega arith)
  | inr some_there ↦ elim (Bool-cases (ltb 3 (longest - shortest))) [
    | inl far ↦ rw some_there (rw far (omega arith, omega arith))
    | inr near ↦ rw some_there (rw near (ground (arith, some_there), h))
  ]
]

letters_similarity_bound :
    (as_ bs : Text) → let s = letters_similarity as_ bs in (0 < s.1) × (s.0 ≤ 10 * s.1)
unfolding letters_similarity
letters_similarity_bound as_ bs =
    similarity_of_bound (max (length as_) (length bs)) (min (length as_) (length bs))
      (matches as_ bs) (ground (arith, matches_bound as_ bs))

similarity_of_self : (n : ℕ) → similarity_of n n (10 * n) ≡ whole n
unfolding similarity_of
similarity_of_self zero = refl
similarity_of_self (suc n) =
    let positive : (suc n == 0) ≡ false = ground arith in
    let near : ltb 3 (suc n - suc n) ≡ false = ground arith in rw positive (rw near refl)

letters_similarity_self : (as_ : Text) → letters_similarity as_ as_ ≡ whole (length as_)
unfolding letters_similarity
letters_similarity_self as_ =
    let n = length as_ in
    let longest : max n n ≡ n = ground arith in
    let shortest : min n n ≡ n = ground arith in
    (λ i. similarity_of (longest i) (shortest i) (matches_self as_ i)) ∙ similarity_of_self n

-- The similarity of two texts does not depend on their order and lies between 0 and 1, with a
-- number of letters above 0 to divide by, and that of a text and itself is 1 unless it has no
-- letters.
pub jamo_similarity_lem :
    (to_lower_case : Text → Text) (a b : Text)
    → let s = jamo_similarity to_lower_case a b in
      (jamo_similarity to_lower_case b a ≡ s)
      × (0 < s.1)
      × (s.0 ≤ 10 * s.1)
      × (jamo_similarity to_lower_case a a ≡ whole (length (decompose_hangul (to_lower_case a))))
unfolding jamo_similarity
jamo_similarity_lem to_lower_case a b =
    let as_ = decompose_hangul (to_lower_case a) in
    let bs = decompose_hangul (to_lower_case b) in
    let (positive, bounded) = letters_similarity_bound as_ bs in
    (letters_similarity_comm bs as_, positive, bounded, letters_similarity_self as_)
