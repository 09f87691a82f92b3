-- ===== src/Intent/Units.antt =====
-- The code units of a written text.
use Prim.Native.Char.{code}
use Prim.Native.String.{String, [] as []ˢ, ◌∷◌ as ◌∷ˢ◌}
use mathlib.Core.List.{[], ◌∷◌}
use aura_new_live_server.Prelude.{Text}

-- Of a text whose characters are one unit each.
unfoldable pub units : String → Text
units []ˢ = []
units (c ∷ˢ s) = code c ∷ units s
