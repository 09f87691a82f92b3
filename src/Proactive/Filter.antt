-- ===== src/Proactive/Filter.antt =====
-- agent/proactive/proactive-analysis.service.ts: how many insights pass, and how often those of a type.
use aura_new_live_server.Prelude.{
  ℕ, suc, ◌+◌, ◌≤◌, ◌<◌, ◌≡◌, refl, ◌∙◌, inl, inr, String, Bool, true, false, ◌||◌, some, List, [],
  ◌∷◌, arith, length, leb, ◌==◌, nat_eq, string_eq, Bool-cases, get, set, get-set, get-set_ne,
  ==_eq, keep, ◌⊎◌,
}
use aura_new_live_server.Proactive.{
  ProactiveInsight, Cooldowns, is_doubtful, is_cooling, filter_insights,
}

filter_insights-length :
    (now passed : ℕ) (is : List ProactiveInsight) (t : Cooldowns)
    → passed < 2
    → length (filter_insights now passed is t).0 + passed ≤ 2
unfolding filter_insights keep
filter_insights-length now passed [] t room = omega (arith, room)
filter_insights-length now passed (i ∷ is) t room =
    elim (Bool-cases (is_doubtful i || is_cooling now i.insight_type t)) [
      | inl skipped ↦ rw skipped (filter_insights-length now passed is t room)
      | inr passes ↦ elim (Bool-cases (leb 2 (suc passed))) [
        | inl last ↦ rw (passes, last) (omega (arith, room))
        | inr more ↦
            rw (passes, more)
              (let left : suc passed < 2 = ground arith in
                omega (
                  arith,
                  filter_insights-length now (suc passed) is (set i.insight_type now t) left,
                ))
      ]
    ]

abbrev pub of_type : String → ProactiveInsight → Bool
of_type kind i = i.insight_type == kind

abbrev pub count_of : String → List ProactiveInsight → ℕ
count_of kind is = length (keep (of_type kind) is)

-- What a call makes of a type: nothing passes and its time stays, or one insight passes, at a time when
-- the type is not cooling, and its time is that of the call.
abbrev IsOutcome : ℕ → String → Cooldowns → List ProactiveInsight × Cooldowns → Type 0
IsOutcome now kind t r =
    ((count_of kind r.0 ≡ 0) × (get kind r.1 ≡ get kind t))
    ⊎ ((count_of kind r.0 ≡ 1) × (get kind r.1 ≡ some now) × (is_cooling now kind t ≡ false))

just_marked :
    (now later : ℕ) (kind : String) (t : Cooldowns)
    → get kind t ≡ some now
    → later < now + 60000
    → is_cooling later kind t ≡ true
unfolding is_cooling
just_marked now later kind t marked soon = rw marked (ground arith)

-- The outcome of a list whose first insight passes.
IsOutcome-cons :
    (now : ℕ) (kind : String) (i : ProactiveInsight) (t : Cooldowns)
    (r : List ProactiveInsight × Cooldowns)
    → is_cooling now i.insight_type t ≡ false
    → IsOutcome now kind (set i.insight_type now t) r
    → IsOutcome now kind t (i ∷ r.0, r.1)
unfolding keep is_cooling
IsOutcome-cons now kind i t r warm rest = elim (Bool-cases (i.insight_type == kind)) [
  | inl same ↦
      let here : get kind (set i.insight_type now t) ≡ some now =
        rw (get-set i.insight_type kind now t) (rw same refl) in
      rw same (elim rest [
        | inl (none_more, time) ↦
            inr (omega (arith, none_more), time ∙ here, rw (==_eq i.insight_type kind same) at warm)
        | inr (one, time, bad) ↦ absurd (
            let cooling = just_marked now now kind (set i.insight_type now t) here (omega arith) in
            cc)
      ])
  | inr other ↦ rw other (elim rest [
    | inl (none_more, time) ↦ inl (none_more, time ∙ get-set_ne i.insight_type kind now t other)
    | inr (one, time, warm') ↦
        inr (one, time, rw (get-set_ne i.insight_type kind now t other) at warm')
  ])
]

filter_insights-IsOutcome :
    (now passed : ℕ) (is : List ProactiveInsight) (t : Cooldowns) (kind : String)
    → IsOutcome now kind t (filter_insights now passed is t)
unfolding filter_insights keep
filter_insights-IsOutcome now passed [] t kind = inl (refl, refl)
filter_insights-IsOutcome now passed (i ∷ is) t kind =
    let marked = set i.insight_type now t in
    elim (Bool-cases (is_doubtful i || is_cooling now i.insight_type t)) [
      | inl skipped ↦ rw skipped (filter_insights-IsOutcome now passed is t kind)
      | inr passes ↦
          let warm : is_cooling now i.insight_type t ≡ false = ground arith in
          elim (Bool-cases (leb 2 (suc passed))) [
            | inl last ↦
                rw (passes, last) (IsOutcome-cons now kind i t ([], marked) warm (inl (refl, refl)))
            | inr more ↦
                rw (passes, more)
                  (IsOutcome-cons now kind i t (filter_insights now (suc passed) is marked) warm
                    (filter_insights-IsOutcome now (suc passed) is marked kind))
          ]
    ]

-- In two calls of which the second begins less than a minute after the first at most one insight of
-- a type passes, and in the first at most two insights pass.
pub filter_insights-bounds :
    (now later : ℕ) (kind : String) (is js : List ProactiveInsight) (t : Cooldowns)
    → later < now + 60000
    → (let (first, marked) = filter_insights now 0 is t in
        let (second, after) = filter_insights later 0 js marked in
        (count_of kind first + count_of kind second ≤ 1) × (length first ≤ 2))
filter_insights-bounds now later kind is js t soon =
    let r = filter_insights now 0 is t in
    (
      elim (filter_insights-IsOutcome now 0 is t kind) [
        | inl (none_first, _) ↦ elim (filter_insights-IsOutcome later 0 js r.1 kind) [
          | inl (none_second, _) ↦ omega (arith, none_first, none_second)
          | inr (one, _, _) ↦ omega (arith, none_first, one)
        ]
        | inr (one, time, _) ↦ elim (filter_insights-IsOutcome later 0 js r.1 kind) [
          | inl (none_second, _) ↦ omega (arith, one, none_second)
          | inr (_, _, warm) ↦ absurd (let cooling = just_marked now later kind r.1 time soon in cc)
        ]
      ],
      omega (arith, filter_insights-length now 0 is t (omega arith)),
    )
