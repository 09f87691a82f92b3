-- ===== src/Proactive.antt =====
-- agent/proactive/proactive-analysis.service.ts: which insights of the language model are passed on.
pub mod Filter
mod Tests
use aura_new_live_server.Prelude.{
  ℕ, suc, ◌-◌, String, Bool, true, false, ◌&&◌, ◌||◌, Option, none, some, List, [], ◌∷◌, ◌++◌,
  length, ltb, leb, ◌==◌, if◌then◌else◌, nat_eq, string_eq, Table, get, set, option_or,
}

-- `ProactiveInsight`; a confidence that is no number compares as neither low nor high, and is none.
pub record ProactiveInsight : Type 0 where
  pub insight_type : String
  pub title : String
  pub content : String
  pub confidence : Option ℕ
  pub timestamp : ℕ

-- `DEFAULT_PROACTIVE_CONFIG`
abbrev pub min_confidence_threshold : ℕ
min_confidence_threshold = 70

abbrev pub cooldown_ms : ℕ
cooldown_ms = 60000

abbrev pub max_insights_per_analysis : ℕ
max_insights_per_analysis = 2

-- `insightCooldowns`
abbrev pub Cooldowns : Type 0
Cooldowns = Table String ℕ

abbrev pub is_doubtful : ProactiveInsight → Bool
is_doubtful i = elim i.confidence [ none ↦ false | some c ↦ ltb c min_confidence_threshold ]

unfoldable pub is_cooling : ℕ → String → Cooldowns → Bool
is_cooling now kind cooldowns = ltb (now - option_or (get kind cooldowns) 0) cooldown_ms

-- The loop of `filterInsights`, with the number of insights that passed so far.
unfoldable pub filter_insights :
    ℕ → ℕ → List ProactiveInsight → Cooldowns → List ProactiveInsight × Cooldowns
unfolding is_cooling
filter_insights now passed [] cooldowns = ([], cooldowns)
filter_insights now passed (i ∷ is) cooldowns =
    let skipped = filter_insights now passed is cooldowns in
    let marked = set i.insight_type now cooldowns in
    let rest = filter_insights now (suc passed) is marked in
    if is_doubtful i || is_cooling now i.insight_type cooldowns
    then skipped
    else (if leb max_insights_per_analysis (suc passed)
        then (i ∷ [], marked)
        else (i ∷ rest.0, rest.1))

-- `analyze`: the answer of the language model is none where the request fails.
unfoldable pub analyze :
    List String
    → List String
    → Option (List ProactiveInsight)
    → ℕ
    → Cooldowns
    → List ProactiveInsight × Cooldowns
unfolding filter_insights
analyze [] [] answer now cooldowns = ([], cooldowns)
analyze [] (s ∷ ss) none now cooldowns = ([], cooldowns)
analyze [] (s ∷ ss) (some is) now cooldowns = filter_insights now 0 is cooldowns
analyze (t ∷ ts) conversation none now cooldowns = ([], cooldowns)
analyze (t ∷ ts) conversation (some is) now cooldowns = filter_insights now 0 is cooldowns

-- `clearCooldowns`
abbrev pub clear_cooldowns : Cooldowns
clear_cooldowns = []
