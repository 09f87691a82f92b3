-- ===== src/Intent/Hangul.antt =====
-- intent/intent-classifier.service.ts: texts that sound like the wake word.
use aura_new_live_server.Prelude.{
  Text, ℕ, zero, suc, ◌+◌, ◌*◌, ◌-◌, ◌/◌, ◌%◌, Bool, ◌&&◌, ◌||◌, Option, none, some, option_or,
  List, [], ◌∷◌, ◌++◌, length, any, leb, ltb, ◌==◌, if◌then◌else◌, nat_eq, list_eq, list_beq, Table,
  get,
}
use aura_new_live_server.Intent.Units.{units}
use aura_new_live_server.Intent.Patterns.{first_of}

-- `CHO`, `JUNG` and `JONG`
abbrev pub cho : Text
cho = units "ㄱㄲㄴㄷㄸㄹㅁㅂㅃㅅㅆㅇㅈㅉㅊㅋㅌㅍㅎ"

abbrev pub jung : Text
jung = units "ㅏㅐㅑㅒㅓㅔㅕㅖㅗㅘㅙㅚㅛㅜㅝㅞㅟㅠㅡㅢㅣ"

abbrev pub jong : Text
jong = units " ㄱㄲㄳㄴㄵㄶㄷㄹㄺㄻㄼㄽㄾㄿㅀㅁㅂㅄㅅㅆㅇㅈㅊㅋㅌㅍㅎ"

-- `letters[i]`, where there is one
unfoldable pub at : Text → ℕ → ℕ
at [] i = 0
at (c ∷ cs) zero = c
at (c ∷ cs) (suc i) = at cs i

-- The letters of a syllable, by its number
unfoldable pub syllable : ℕ → Text
unfolding at units
syllable code =
    let last = at jong (code % 28) in
    at cho (code / 588) ∷ at jung (code % 588 / 28) ∷ (if last == 32 then [] else last ∷ [])

-- `decomposeHangul`
unfoldable pub decompose_hangul : Text → Text
unfolding syllable
decompose_hangul [] = []
decompose_hangul (c ∷ cs) =
    let rest = decompose_hangul cs in
    if leb 44032 c && leb c 55203 then syllable (c - 44032) ++ rest else c ∷ rest

-- `SIMILAR_JAMO`
unfoldable pub similar_jamo : Table Text Text
unfolding units
similar_jamo =
    (units "ㄹ", units "ㄴㄷ")
    ∷ (units "ㄴ", units "ㄹㅁ")
    ∷ (units "ㅁ", units "ㅂㄴ")
    ∷ (units "ㅂ", units "ㅁㅍㅃ")
    ∷ (units "ㄱ", units "ㅋㄲ")
    ∷ (units "ㅅ", units "ㅆㅈㅊ")
    ∷ (units "ㅈ", units "ㅅㅆㅊㅉ")
    ∷ (units "ㅜ", units "ㅡㅗ")
    ∷ (units "ㅡ", units "ㅜㅣㅓ")
    ∷ (units "ㅗ", units "ㅜㅓ")
    ∷ (units "ㅏ", units "ㅑㅐㅓ")
    ∷ (units "ㅓ", units "ㅕㅔㅏㅗ")
    ∷ (units "ㅣ", units "ㅡㅢ")
    ∷ []

-- `SIMILAR_JAMO[a]?.includes(b)`
unfoldable pub lists : ℕ → ℕ → Bool
unfolding similar_jamo any get list_beq
lists a b = any (λ j. j == b) (option_or (get (a ∷ []) similar_jamo) [])

-- `isSimilarJamo`
unfoldable pub is_similar_jamo : ℕ → ℕ → Bool
unfolding lists
is_similar_jamo a b = a == b || (lists a b || lists b a)

-- What two letters add to the matches, in tenths.
unfoldable pub letter_score : ℕ → ℕ → ℕ
unfolding is_similar_jamo
letter_score a b = if a == b then 10 else if is_similar_jamo a b then 6 else 0

-- The loop over the letters that both have
unfoldable pub matches : Text → Text → ℕ
unfolding letter_score
matches [] bs = 0
matches (a ∷ as_) [] = 0
matches (a ∷ as_) (b ∷ bs) = letter_score a b + matches as_ bs

-- A similarity: tenths of matches, and the number of letters that they are divided by.
abbrev pub Similarity : Type 0
Similarity = ℕ × ℕ

abbrev pub max : ℕ → ℕ → ℕ
max n m = if leb n m then m else n

abbrev pub min : ℕ → ℕ → ℕ
min n m = if leb n m then n else m

-- The value of `jamoSimilarity`; 0 is no tenths of one letter.
unfoldable pub similarity_of : ℕ → ℕ → ℕ → Similarity
similarity_of longest shortest tenths =
    if longest == 0
    then (0, 1)
    else if ltb 3 (longest - shortest)
    then (0, 1)
    else (tenths, longest)

-- `jamoSimilarity`, after `decomposeHangul`
unfoldable pub letters_similarity : Text → Text → Similarity
unfolding similarity_of matches
letters_similarity as_ bs =
    similarity_of (max (length as_) (length bs)) (min (length as_) (length bs)) (matches as_ bs)

-- `similarity >= percent / 100`
abbrev pub is_at_least : ℕ → Similarity → Bool
is_at_least percent s = leb (percent * s.1) (10 * s.0)

abbrev pub targets : List Text
targets = units "아우라" ∷ units "아우라야" ∷ units "헤이아우라" ∷ []

abbrev pub calls : List Text
calls = units "헤이" ∷ units "해이" ∷ units "에이" ∷ units "혜이" ∷ units "해" ∷ units "헤" ∷ []

-- `tokens[tokens.indexOf(token) + 1]`
unfoldable pub token_after : Text → List Text → Option Text
unfolding list_beq
token_after token [] = none
token_after token (t ∷ []) = none
token_after token (t ∷ next ∷ ts) =
    let later = token_after token (next ∷ ts) in if t == token then some next else later

module _ (to_lower_case : Text → Text) where
  -- `jamoSimilarity`
  unfoldable pub jamo_similarity : Text → Text → Similarity
  unfolding decompose_hangul letters_similarity
  jamo_similarity a b =
      letters_similarity (decompose_hangul (to_lower_case a)) (decompose_hangul (to_lower_case b))

  -- The first of the targets that is similar enough
  unfoldable pub first_target : Text → List Text → Option (Text × Similarity)
  unfolding jamo_similarity
  first_target token [] = none
  first_target token (t ∷ ts) =
      let later = first_target token ts in
      let similarity = jamo_similarity token t in
      if is_at_least 65 similarity then some (t, similarity) else later

  unfoldable pub after_call : Option Text → Option (Text × Similarity)
  unfolding jamo_similarity
  after_call none = none
  after_call (some next) =
      let similarity = jamo_similarity next (units "아우라") in
      if is_at_least 50 similarity then some (units "헤이 아우라", similarity) else none

  -- The body of the loop over the tokens
  unfoldable pub match_token : List Text → Text → Option (Text × Similarity)
  unfolding first_target token_after after_call any list_beq first_of
  match_token tokens token =
      if ltb (length token) 2
      then none
      else first_of (first_target token targets)
          (if any (λ c. c == token) calls then after_call (token_after token tokens) else none)

  unfoldable pub first_token : List Text → List Text → Option (Text × Similarity)
  unfolding match_token
  first_token tokens [] = none
  first_token tokens (t ∷ ts) = first_of (match_token tokens t) (first_token tokens ts)

  -- `fuzzyMatchWakeWord`, on the first four tokens of the text
  unfoldable pub fuzzy_match_wake_word : List Text → Option (Text × Similarity)
  unfolding first_token
  fuzzy_match_wake_word tokens = first_token tokens tokens
