-- ===== src/Intent/Durations.antt =====
-- intent/intent-classifier.service.ts: texts that begin with the timer and a number of minutes.
use aura_new_live_server.Prelude.{
  Text, ℕ, ◌≡◌, ltb, leb, ◌&&◌, if◌then◌else◌, none, refl, ap, inl, inr, String, Bool, true, false,
  ◌&&◌, Option, some, List, [], ◌∷◌, ◌++◌, is_space, all_in, after, nat_eq, map, arith, Bool-cases,
}
use aura_new_live_server.Intent.Units.{units}
use aura_new_live_server.Intent.Patterns.{
  Atom, letters, spaces, Piece, atom, maybe_of, digits, Matches, match_spaces, is_digit,
  match_digits, match_atom, match_any, match_piece, try_each, first_match, exec,
}
use aura_new_live_server.Intent.Commands.{
  TimerAction, start, TimerPattern, timer_for_minutes, more_timer_patterns, timer_patterns,
  parse_int, minutes_of, timer_intent,
}

and_true : (a b : Bool) → (a && b) ≡ true → (a ≡ true) × (b ≡ true)
and_true a b h = (ground (arith, h), ground (arith, h))

-- The first result takes the whole run.
match_spaces_run :
    (gap : Text) (c : ℕ) (cs : Text)
    → all_in is_space gap ≡ true
    → is_space c ≡ false
    → (more : List Text) × (match_spaces (gap ++ c ∷ cs) ≡ (c ∷ cs) ∷ more)
unfolding match_spaces all_in
match_spaces_run [] c cs run other = ([], rw other refl)
match_spaces_run (g ∷ gap) c cs run other =
    let (first, rest) = and_true (is_space g) (all_in is_space gap) run in
    let (more, e) = match_spaces_run gap c cs rest other in
    (more ++ (g ∷ (gap ++ c ∷ cs)) ∷ [], rw first (rw e refl))

match_spaces_some : (text : Text) → (t : Text) × (more : List Text) × (match_spaces text ≡ t ∷ more)
unfolding match_spaces
match_spaces_some [] = ([], [], refl)
match_spaces_some (c ∷ cs) = elim (Bool-cases (is_space c)) [
  | inl space ↦
      let (t, more, e) = match_spaces_some cs in (t, more ++ (c ∷ cs) ∷ [], rw space (rw e refl))
  | inr other ↦ (c ∷ cs, [], rw other refl)
]

match_digits_run :
    (d : ℕ) (ds : Text) (c : ℕ) (cs : Text)
    → all_in is_digit (d ∷ ds) ≡ true
    → is_digit c ≡ false
    → (more : List (Text × Text)) × (match_digits (d ∷ ds ++ c ∷ cs) ≡ (d ∷ ds, c ∷ cs) ∷ more)
unfolding match_digits all_in
match_digits_run d [] c cs run other =
    let (first, rest) = and_true (is_digit d) true run in ([], rw first (rw other refl))
match_digits_run d (e ∷ ds) c cs run other =
    let (first, rest) = and_true (is_digit d) (all_in is_digit (e ∷ ds)) run in
    let (more, found) = match_digits_run e ds c cs rest other in
    (
      map (λ (r : Text × Text). (d ∷ r.0, r.1)) more ++ (d ∷ [], e ∷ (ds ++ c ∷ cs)) ∷ [],
      rw first (
          ap
            (λ rs.
              map (λ (r : Text × Text). (d ∷ r.0, r.1)) rs ++ (d ∷ [], e ∷ (ds ++ c ∷ cs)) ∷ [])
            found),
    )

try_each_first :
    (follow : Text → Option (List Text)) (captured : List Text) (rest : Text) (more : Matches)
    {found : List Text}
    → follow rest ≡ some found
    → try_each follow ((captured, rest) ∷ more) ≡ some (captured ++ found)
unfolding try_each
try_each_first follow captured rest more h = rw h refl

maybe_some :
    (ts : List Text) (text : Text)
    → try_each (λ t. some []) (map (λ (t : Text). ([], t)) (ts ++ text ∷ [])) ≡ some []
unfolding try_each
maybe_some [] text = refl
maybe_some (t ∷ ts) text = refl

-- The end of the pattern, which matches anything.
ending_matches :
    (words : List (List Atom)) (text : Text)
    → first_match (atom spaces ∷ maybe_of words ∷ []) text ≡ some []
unfolding first_match match_piece match_atom
ending_matches words text =
    let (t, more, e) = match_spaces_some text in
    rw e
      (try_each_first (first_match (maybe_of words ∷ [])) [] t _ (maybe_some (match_any words t) t))

first_match_spaces :
    (ps : List Piece) (gap : Text) (c : ℕ) (cs : Text) {found : List Text}
    → all_in is_space gap ≡ true
    → is_space c ≡ false
    → first_match ps (c ∷ cs) ≡ some found
    → first_match (atom spaces ∷ ps) (gap ++ c ∷ cs) ≡ some found
unfolding first_match match_piece match_atom
first_match_spaces ps gap c cs blank other h =
    let (more, e) = match_spaces_run gap c cs blank other in
    rw e (try_each_first (first_match ps) [] (c ∷ cs) _ h)

first_match_digits :
    (ps : List Piece) (d : ℕ) (ds : Text) (c : ℕ) (cs : Text) {found : List Text}
    → all_in is_digit (d ∷ ds) ≡ true
    → is_digit c ≡ false
    → first_match ps (c ∷ cs) ≡ some found
    → first_match (digits ∷ ps) (d ∷ ds ++ c ∷ cs) ≡ some ((d ∷ ds) ∷ found)
unfolding first_match match_piece
first_match_digits ps d ds c cs number other h =
    let (more, e) = match_digits_run d ds c cs number other in
    rw e (try_each_first (first_match ps) ((d ∷ ds) ∷ []) (c ∷ cs) _ h)

first_match_letters :
    (ps : List Piece) (word : String) (text rest : Text) {found : List Text}
    → after (units word) text ≡ some rest
    → first_match ps rest ≡ some found
    → first_match (atom (letters word) ∷ ps) text ≡ some found
unfolding first_match match_piece match_atom
first_match_letters ps word text rest begins h =
    rw (begins, match_atom) (try_each_first (first_match ps) [] rest [] h)

digit_no_space : (d : ℕ) → is_digit d ≡ true → is_space d ≡ false
digit_no_space d number = ground (arith, number)

-- A text that begins so is matched at its first place.
timer_for_minutes_matches :
    (gap : Text) (d : ℕ) (ds rest : Text)
    → all_in is_space gap ≡ true
    → all_in is_digit (d ∷ ds) ≡ true
    → first_match timer_for_minutes (units "타이머" ++ (gap ++ (d ∷ ds ++ (units "분" ++ rest))))
      ≡ some ((d ∷ ds) ∷ [])
unfolding units after all_in
timer_for_minutes_matches gap d ds rest blank number =
    let no_space = digit_no_space d (and_true (is_digit d) (all_in is_digit ds) number).0 in
    first_match_letters _ "타이머" _ (gap ++ (d ∷ ds ++ (units "분" ++ rest))) refl (
      first_match_spaces _ gap d _ blank no_space (
        first_match_digits _ d ds 48516 rest number refl (
          first_match_spaces _ [] 48516 rest refl refl
            (first_match_letters _ "분" _ rest refl (ending_matches _ rest)))))

exec_first :
    (ps : List Piece) (c : ℕ) (cs : Text) {found : List Text}
    → first_match ps (c ∷ cs) ≡ some found
    → exec ps (c ∷ cs) ≡ some found
unfolding exec
exec_first ps c cs h = rw h refl

timer_intent_first :
    (pieces : List Piece) (action : TimerAction) (ps : List TimerPattern) (c : ℕ) (cs : Text)
    {found : List Text}
    → first_match pieces (c ∷ cs) ≡ some found
    → timer_intent
        (record { pattern = pieces; action = action; extract_minutes = true } ∷ ps)
        (c ∷ cs)
      ≡ some (action, minutes_of found)
unfolding timer_intent
timer_intent_first pieces action ps c cs h = rw (exec_first pieces c cs h) refl

-- A text that begins with the word for a timer, any white space, digits and the sign for minutes is
-- a command to start a timer, whatever follows, a request to extend the timer included; its minutes
-- are the number of the digits if that is from 1 to 180, and are missing otherwise.
pub timer_intent-timer_for_minutes :
    (gap : Text) (d : ℕ) (ds rest : Text)
    → all_in is_space gap ≡ true
    → all_in is_digit (d ∷ ds) ≡ true
    → timer_intent timer_patterns (units "타이머" ++ (gap ++ (d ∷ ds ++ (units "분" ++ rest)))) ≡ (
        let n = parse_int 0 (d ∷ ds) in some (start, if ltb 0 n && leb n 180 then some n else none))
unfolding units minutes_of
timer_intent-timer_for_minutes gap d ds rest blank number =
    let text = gap ++ (d ∷ ds ++ (units "분" ++ rest)) in
    timer_intent_first timer_for_minutes start more_timer_patterns 53440 (51060 ∷ 47672 ∷ text)
      (timer_for_minutes_matches gap d ds rest blank number)
