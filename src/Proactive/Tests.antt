-- ===== src/Proactive/Tests.antt =====
-- The filter of insights at concrete inputs.
use aura_new_live_server.Prelude.{
  ℕ, ◌+◌, ◌≤◌, ◌≡◌, refl, String, Option, none, some, List, [], ◌∷◌, arith, length, get, set,
  string_eq,
}
use aura_new_live_server.Proactive.{ProactiveInsight, is_cooling, filter_insights}
use aura_new_live_server.Proactive.Filter.{count_of, filter_insights-bounds}

abbrev insight : String → Option ℕ → ProactiveInsight
insight kind confidence = record {
  insight_type = kind;
  title = "";
  content = "";
  confidence = confidence;
  timestamp = 0;
}

abbrev insights : List ProactiveInsight
insights =
    insight "tip" (some 60)
    ∷ insight "tip" (some 80)
    ∷ insight "tip" (some 90)
    ∷ insight "warning" none
    ∷ insight "info" (some 99)
    ∷ []

-- An insight without a confidence passes.
insights_pass :
    (filter_insights 100000 0 insights []).0 ≡ insight "tip" (some 80) ∷ insight "warning" none ∷ []
unfolding filter_insights is_cooling get set
insights_pass = refl

filter_insights-bounds_example :
    (count_of "tip" (filter_insights 100000 0 insights []).0
        + count_of "tip"
            (filter_insights 130000 0 insights (filter_insights 100000 0 insights []).1).0
      ≤ 1)
    × (length (filter_insights 100000 0 insights []).0 ≤ 2)
filter_insights-bounds_example =
    filter_insights-bounds 100000 130000 "tip" insights insights [] (omega arith)
