-- ===== src/Intent/Patterns.antt =====
-- intent/intent-classifier.service.ts: the regular expressions of the timer commands.
use mathlib.Core.Option
use aura_new_live_server.Prelude.{
  Text, ℕ, String, Bool, ◌&&◌, Option, none, some, List, [], ◌∷◌, ◌++◌, leb, is_space, after,
  if◌then◌else◌, nat_eq, map,
}
use aura_new_live_server.Intent.Units.{units}

-- A part of a word: a text, or any white space (`\s*`).
pub data Atom : Type 0 where
  letters : String → Atom
  spaces : Atom

-- A part of a pattern: a word, a group of words, one that may be missing, and the digits (`(\d+)`).
pub data Piece : Type 0 where
  atom : Atom → Piece
  one_of : List (List Atom) → Piece
  maybe_of : List (List Atom) → Piece
  digits : Piece

-- The results of a match in the order in which they are tried: what is captured, and what follows.
abbrev pub Matches : Type 0
Matches = List (List Text × Text)

-- White space, the longest run first
unfoldable pub match_spaces : Text → List Text
match_spaces [] = [] ∷ []
match_spaces (c ∷ cs) =
    let rest = match_spaces cs in if is_space c then rest ++ (c ∷ cs) ∷ [] else (c ∷ cs) ∷ []

abbrev pub is_digit : ℕ → Bool
is_digit c = leb 48 c && leb c 57

-- Digits, the longest run first
unfoldable pub match_digits : Text → List (Text × Text)
match_digits [] = []
match_digits (c ∷ cs) =
    let rest = match_digits cs in
    if is_digit c then map (λ (r : Text × Text). (c ∷ r.0, r.1)) rest ++ (c ∷ [], cs) ∷ [] else []

-- What follows, if anything does.
unfoldable pub all_of : Option Text → List Text
all_of none = []
all_of (some rest) = rest ∷ []

unfoldable pub match_atom : Atom → Text → List Text
unfolding all_of units after match_spaces
match_atom (letters word) text = all_of (after (units word) text)
match_atom spaces text = match_spaces text

unfoldable pub match_then : (Text → List Text) → List Text → List Text
match_then f [] = []
match_then f (t ∷ ts) = f t ++ match_then f ts

unfoldable pub match_word : List Atom → Text → List Text
unfolding match_atom match_then
match_word [] text = text ∷ []
match_word (a ∷ as_) text = match_then (match_word as_) (match_atom a text)

unfoldable pub match_any : List (List Atom) → Text → List Text
unfolding match_word
match_any [] text = []
match_any (w ∷ ws) text = match_word w text ++ match_any ws text

-- A piece: none or one text is captured.
unfoldable pub match_piece : Piece → Text → Matches
unfolding match_any match_digits
match_piece (atom a) text = map (λ (t : Text). ([], t)) (match_atom a text)
match_piece (one_of words) text = map (λ (t : Text). ([], t)) (match_any words text)
match_piece (maybe_of words) text = map (λ (t : Text). ([], t)) (match_any words text ++ text ∷ [])
match_piece digits text = map (λ (r : Text × Text). (r.0 ∷ [], r.1)) (match_digits text)

-- The first of two results
unfoldable pub first_of : {A : Type 0} → Option A → Option A → Option A
first_of none later = later
first_of (some found) later = some found

-- The first of some matches that the rest of the pattern can follow.
unfoldable pub try_each : (Text → Option (List Text)) → Matches → Option (List Text)
unfolding first_of
try_each follow [] = none
try_each follow ((captured, rest) ∷ more) =
    first_of (Option.map (λ (found : List Text). captured ++ found) (follow rest))
      (try_each follow more)

-- The first match of the pieces at the start of a text, with what it captures.
unfoldable pub first_match : List Piece → Text → Option (List Text)
unfolding match_piece try_each
first_match [] text = some []
first_match (p ∷ ps) text = try_each (first_match ps) (match_piece p text)

-- `pattern.exec(text)`: the first place at which it matches
unfoldable pub exec : List Piece → Text → Option (List Text)
unfolding first_of first_match
exec ps [] = first_match ps []
exec ps (c ∷ cs) = first_of (first_match ps (c ∷ cs)) (exec ps cs)
