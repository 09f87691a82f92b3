-- ===== src/Prelude/Texts.antt =====
-- Texts, as the lists of their UTF-16 code units.
use Prim.Native.Nat.{ℕ}
use mathlib.Core.Bool.{Bool, true, ◌&&◌, ◌||◌}
use mathlib.Core.List.{[], ◌∷◌}
use mathlib.Core.Option.{Option, none, some}
use aura_new_live_server.Prelude.Tests.{leb, ◌==◌, if◌then◌else◌, nat_eq}
use aura_new_live_server.Prelude.Lists.{Text}

-- The white space that `trim` takes.
abbrev pub is_space : ℕ → Bool
is_space c =
    leb 9 c && leb c 13
    || c == 32
    || c == 160
    || c == 5760
    || leb 8192 c && leb c 8202
    || c == 8232
    || c == 8233
    || c == 8239
    || c == 8287
    || c == 12288
    || c == 65279

-- Runs of a class at the start: `\s*`, and what follows it.
unfoldable pub skip : (ℕ → Bool) → Text → Text
skip class [] = []
skip class (c ∷ cs) = let rest = skip class cs in if class c then rest else c ∷ cs

unfoldable pub all_in : (ℕ → Bool) → Text → Bool
all_in class [] = true
all_in class (c ∷ cs) = class c && all_in class cs

unfoldable pub reversed : Text → Text → Text
reversed done [] = done
reversed done (c ∷ cs) = reversed (c ∷ done) cs

-- `text.trim()`
unfoldable pub trim : Text → Text
unfolding skip reversed
trim text = reversed [] (skip is_space (reversed [] (skip is_space text)))

-- What follows a text at the start.
unfoldable pub after : Text → Text → Option Text
after [] text = some text
after (p ∷ ps) [] = none
after (p ∷ ps) (c ∷ cs) = if p == c then after ps cs else none
