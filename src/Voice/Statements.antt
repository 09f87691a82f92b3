-- ===== src/Voice/Statements.antt =====
-- livekit/voice-bot.service.ts: the statements that are kept for a diagram.
use aura_new_live_server.Prelude.{
  ℕ, ◌≤◌, ◌≡◌, ◌∙◌, ap, sym, refl, inl, inr, String, Bool, false, ◌||◌, Option, none, some, List,
  [], ◌∷◌, ◌++◌, map, length, any, keep, ltb, ◌==◌, ==_sym, if◌then◌else◌, nat_eq, string_eq,
  sort_by_same, IsSorted, AllAfter, arith, Bool-cases, append_assoc, append-nil,
}
use aura_new_live_server.Voice.Diagrams.{
  DiagramType, flowchart, sequence, erd, architecture, DiagramStatement, DiagramContext,
  DiagramContexts, create_empty_diagram_contexts, context_of, add_unique, unique,
  detect_diagram_keywords, update_diagram_context, update_diagram_contexts, is_later, focused,
  build_focused_transcript,
}

-- No keyword stands twice.
abbrev pub IsUnique : List String → Type 0
IsUnique [] = Unit {0}
IsUnique (k ∷ ks) = (any (λ j. j == k) ks ≡ false) × IsUnique ks

any-append : (p : String → Bool) (xs ys : List String) → any p (xs ++ ys) ≡ (any p xs || any p ys)
unfolding any
any-append p [] ys = refl
any-append p (x ∷ xs) ys = ground (arith, any-append p xs ys)

append-IsUnique :
    (k : String) (ks : List String)
    → any (λ j. j == k) ks ≡ false
    → IsUnique ks
    → IsUnique (ks ++ k ∷ [])
unfolding any
append-IsUnique k [] new u = (refl, tt)
append-IsUnique k (j ∷ ks) new u = (
  rw (any-append (λ i. i == j) ks (k ∷ [])) (ground (arith, u.0, new, ==_sym j k)),
  append-IsUnique k ks (ground (arith, new)) u.1,
)

unique-IsUnique : (ks more : List String) → IsUnique ks → IsUnique (unique ks more)
unfolding unique add_unique
unique-IsUnique ks [] u = u
unique-IsUnique ks (k ∷ more) u = elim (Bool-cases (any (λ j. j == k) ks)) [
  | inl old ↦ rw old (unique-IsUnique ks more u)
  | inr new ↦ rw new (unique-IsUnique (ks ++ k ∷ []) more (append-IsUnique k ks new u))
]

-- Something that is said.
pub record Utterance : Type 0 where
  pub text : String
  pub speaker : String
  pub now : ℕ

abbrev pub IsTimely : ℕ → List Utterance → Type 0
IsTimely from [] = Unit {0}
IsTimely from (u ∷ us) = (from ≤ u.now) × IsTimely u.now us

abbrev IsBy : ℕ → List DiagramStatement → Type 0
IsBy to [] = Unit {0}
IsBy to (s ∷ rest) = (s.timestamp ≤ to) × IsBy to rest

abbrev Rises : List DiagramStatement → Type 0
Rises = IsSorted (λ (a b : DiagramStatement). a.timestamp ≤ b.timestamp)

AllAfter-append :
    (s t : DiagramStatement) (rest : List DiagramStatement)
    → AllAfter (λ (a b : DiagramStatement). a.timestamp ≤ b.timestamp) s rest
    → s.timestamp ≤ t.timestamp
    → AllAfter (λ (a b : DiagramStatement). a.timestamp ≤ b.timestamp) s (rest ++ t ∷ [])
AllAfter-append s t [] h le = (le, tt)
AllAfter-append s t (r ∷ rest) h le = (h.0, AllAfter-append s t rest h.1 le)

append-Rises :
    (t : DiagramStatement) (rest : List DiagramStatement)
    → IsBy t.timestamp rest
    → Rises rest
    → Rises (rest ++ t ∷ [])
append-Rises t [] by r = (tt, tt)
append-Rises t (s ∷ rest) by r = (AllAfter-append s t rest r.0 by.0, append-Rises t rest by.1 r.1)

IsBy-append :
    (to : ℕ) (t : DiagramStatement) (rest : List DiagramStatement)
    → IsBy to rest
    → t.timestamp ≤ to
    → IsBy to (rest ++ t ∷ [])
IsBy-append to t [] by le = (le, tt)
IsBy-append to t (s ∷ rest) by le = (by.0, IsBy-append to t rest by.1 le)

IsBy-later :
    (from to : ℕ) (rest : List DiagramStatement) → from ≤ to → IsBy from rest → IsBy to rest
IsBy-later from to [] le by = tt
IsBy-later from to (s ∷ rest) le by = (omega (arith, le, by.0), IsBy-later from to rest le by.1)

abbrev pub none_if_empty : List DiagramStatement → Option (List DiagramStatement)
none_if_empty [] = none
none_if_empty (s ∷ rest) = some (s ∷ rest)

focused_same : (ss : List DiagramStatement) → Rises ss → focused ss ≡ none_if_empty ss
focused_same [] r = refl
focused_same (s ∷ rest) r = ap some (
    sort_by_same (λ (a b : DiagramStatement). a.timestamp ≤ b.timestamp) is_later
      (λ a b le. ground (arith, le)) (s ∷ rest) r)

build_focused_transcript_same :
    (c : DiagramContext)
    → Rises c.statements
    → build_focused_transcript c ≡ none_if_empty c.statements
unfolding build_focused_transcript
build_focused_transcript_same c r = focused_same c.statements r

module _ (to_lower_case : String → String) where
  -- The utterance as a statement of a type.
  abbrev pub statement_of : DiagramType → Utterance → DiagramStatement
  statement_of type u = record {
    speaker = u.speaker;
    text = u.text;
    keywords = detect_diagram_keywords to_lower_case type u.text;
    timestamp = u.now;
  }

  abbrev pub matters : DiagramType → Utterance → Bool
  matters type u = ltb 0 (length (detect_diagram_keywords to_lower_case type u.text))

  unfoldable pub hear : List Utterance → DiagramContexts → DiagramContexts
  unfolding update_diagram_contexts
  hear [] c = c
  hear (u ∷ us) c = hear us (update_diagram_contexts to_lower_case u.text u.speaker u.now c)

  -- What holds of a context at a time.
  record IsContext (time : ℕ) (c : DiagramContext) : Type 0 where
    unique_keywords : IsUnique c.keywords
    rising : Rises c.statements
    before : IsBy time c.statements

  update-IsContext :
      (type : DiagramType) (u : Utterance) (time : ℕ) (c : DiagramContext)
      → time ≤ u.now
      → IsContext time c
      → IsContext u.now (update_diagram_context to_lower_case type u.text u.speaker u.now c)
  unfolding update_diagram_context
  update-IsContext type u time c later h =
      let found = detect_diagram_keywords to_lower_case type u.text in
      let by = IsBy-later time u.now c.statements later h.before in
      elim (Bool-cases (matters type u)) [
        | inr other ↦
            rw (other, update_diagram_context)
              (record { unique_keywords = h.unique_keywords; rising = h.rising; before = by })
        | inl some' ↦
            rw (some', update_diagram_context)
              (record {
                unique_keywords = unique-IsUnique [] (c.keywords ++ found) tt;
                rising = append-Rises (statement_of type u) c.statements by h.rising;
                before = IsBy-append u.now (statement_of type u) c.statements by (omega arith);
              })
      ]

  context_of-update :
      (type : DiagramType) (u : Utterance) (c : DiagramContexts)
      → context_of type (update_diagram_contexts to_lower_case u.text u.speaker u.now c)
        ≡ update_diagram_context to_lower_case type u.text u.speaker u.now (context_of type c)
  unfolding update_diagram_contexts
  context_of-update flowchart u c = refl
  context_of-update sequence u c = refl
  context_of-update erd u c = refl
  context_of-update architecture u c = refl

  update-statements :
      (type : DiagramType) (u : Utterance) (c : DiagramContext)
      → (update_diagram_context to_lower_case type u.text u.speaker u.now c).statements
        ≡ (if matters type u then c.statements ++ statement_of type u ∷ [] else c.statements)
  unfolding update_diagram_context
  update-statements type u c = elim (Bool-cases (matters type u)) [
    | inr other ↦ rw (other, update_diagram_context) refl
    | inl some' ↦ rw (some', update_diagram_context) refl
  ]

  hear-statements :
      (type : DiagramType) (us : List Utterance) (c : DiagramContexts)
      → (context_of type (hear us c)).statements
        ≡ (context_of type c).statements ++ map (statement_of type) (keep (matters type) us)
  unfolding hear keep
  hear-statements type [] c = sym (append-nil (context_of type c).statements)
  hear-statements type (u ∷ us) c =
      let before = (context_of type c).statements in
      let later = map (statement_of type) (keep (matters type) us) in
      let next = update_diagram_contexts to_lower_case u.text u.speaker u.now c in
      let step =
        ap (λ (d : DiagramContext). d.statements) (context_of-update type u c)
        ∙ update-statements type u (context_of type c) in
      elim (Bool-cases (matters type u)) [
        | inl some' ↦ rw some' (
            hear-statements type us next
            ∙ ap (λ ss. ss ++ later) (step ∙ rw some' refl)
            ∙ append_assoc before (statement_of type u ∷ []) later)
        | inr other ↦
            rw other (hear-statements type us next ∙ ap (λ ss. ss ++ later) (step ∙ rw other refl))
      ]

  hear-IsContext :
      (type : DiagramType) (time : ℕ) (us : List Utterance) (c : DiagramContexts)
      → IsTimely time us
      → IsContext time (context_of type c)
      → IsUnique (context_of type (hear us c)).keywords
        × Rises (context_of type (hear us c)).statements
  unfolding hear
  hear-IsContext type time [] c timely h = (h.unique_keywords, h.rising)
  hear-IsContext type time (u ∷ us) c timely h =
      let next = update_diagram_contexts to_lower_case u.text u.speaker u.now c in
      hear-IsContext type u.now us next timely.1 (
        rw (context_of-update type u c)
          (update-IsContext type u time (context_of type c) timely.0 h))

  -- After utterances in the order of their times, the context of each type of diagram has exactly
  -- the utterances that mention one of its keywords, no keyword twice, and its transcript has them
  -- in the order in which they were said.
  pub hear-build_focused_transcript :
      (type : DiagramType) (us : List Utterance)
      → IsTimely 0 us
      → let c = context_of type (hear us create_empty_diagram_contexts) in
        let kept = map (statement_of type) (keep (matters type) us) in
        (c.statements ≡ kept)
        × IsUnique c.keywords
        × (build_focused_transcript c ≡ none_if_empty kept)
  hear-build_focused_transcript type us timely =
      let c = context_of type (hear us create_empty_diagram_contexts) in
      let kept =
        hear-statements type us create_empty_diagram_contexts
        ∙ ap (λ ss. ss ++ map (statement_of type) (keep (matters type) us))
            (empty_statements type) in
      let (distinct, rises) =
        hear-IsContext type 0 us create_empty_diagram_contexts timely (empty-IsContext type) in
      (kept, distinct, build_focused_transcript_same c rises ∙ ap none_if_empty kept)
    where
      empty_statements :
          (t : DiagramType) → (context_of t create_empty_diagram_contexts).statements ≡ []
      empty_statements flowchart = refl
      empty_statements sequence = refl
      empty_statements erd = refl
      empty_statements architecture = refl

      empty-IsContext : (t : DiagramType) → IsContext 0 (context_of t create_empty_diagram_contexts)
      empty-IsContext flowchart = record { unique_keywords = tt; rising = tt; before = tt }
      empty-IsContext sequence = record { unique_keywords = tt; rising = tt; before = tt }
      empty-IsContext erd = record { unique_keywords = tt; rising = tt; before = tt }
      empty-IsContext architecture = record { unique_keywords = tt; rising = tt; before = tt }
