-- ===== src/Intent/Tests.antt =====
-- The intent classifier at concrete inputs.
use aura_new_live_server.Prelude.{
  Text, ◌≡◌, refl, some, [], ◌∷◌, ◌++◌, all_in, nat_eq, after, any, list_beq, list_eq, get, length,
  ◌<◌, ◌≤◌, ◌*◌,
}
use aura_new_live_server.Intent.Units.{units}
use aura_new_live_server.Intent.Patterns.{
  exec, first_match, match_piece, match_atom, match_any, match_word, match_then, match_spaces,
  match_digits, try_each, first_of, all_of,
}
use aura_new_live_server.Intent.Commands.{
  start, extend, timer_patterns, more_timer_patterns, timer_intent, minutes_of, parse_int,
}
use aura_new_live_server.Intent.Hangul.{
  decompose_hangul, syllable, at, jamo_similarity, letters_similarity, similarity_of, matches,
  letter_score, is_similar_jamo, lists, similar_jamo,
}
use aura_new_live_server.Intent.Similarity.{whole, jamo_similarity_lem}
use aura_new_live_server.Intent.Durations.{timer_intent-timer_for_minutes}

-- '5분 더' extends the timer.
extends_timer : timer_intent timer_patterns (units "5분 더") ≡ some (extend, some 5)
unfolding timer_intent more_timer_patterns exec first_match match_piece match_atom match_any
    match_word match_then match_spaces match_digits try_each first_of all_of units after minutes_of
    parse_int
extends_timer = refl

-- '타이머 5분 연장해줘' asks to extend the timer, and starts a new one.
timer_intent-timer_for_minutes_example :
    timer_intent timer_patterns
      (units "타이머" ++ (32 ∷ [] ++ (53 ∷ [] ++ (units "분" ++ units " 연장해줘"))))
    ≡ some (start, some 5)
unfolding all_in parse_int
timer_intent-timer_for_minutes_example =
    timer_intent-timer_for_minutes (32 ∷ []) 53 [] (units " 연장해줘") refl refl

-- '어우라' has six letters, of which five are those of '아우라' and one is like it.
similar_call : jamo_similarity (λ t. t) (units "어우라") (units "아우라") ≡ (56, 6)
unfolding jamo_similarity decompose_hangul syllable at letters_similarity similarity_of matches
    letter_score is_similar_jamo lists similar_jamo units any get list_beq
similar_call = refl

jamo_similarity_lem_example :
    let s = jamo_similarity (λ t. t) (units "어우라") (units "아우라") in
    (jamo_similarity (λ t. t) (units "아우라") (units "어우라") ≡ s)
    × (0 < s.1)
    × (s.0 ≤ 10 * s.1)
    × (jamo_similarity (λ t. t) (units "어우라") (units "어우라")
        ≡ whole (length (decompose_hangul (units "어우라"))))
jamo_similarity_lem_example = jamo_similarity_lem (λ (t : Text). t) (units "어우라") (units "아우라")
