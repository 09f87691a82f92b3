-- ===== src/Study/Quizzes.antt =====
-- study/study-mode.service.ts: how many quizzes a session has, and how often.
use aura_new_live_server.Prelude.{
  ℕ, suc, ◌+◌, ◌-◌, ◌≤◌, ◌<◌, ◌≡◌, refl, length, inl, inr, String, Bool, not, ◌||◌, Option, none,
  some, List, [], ◌∷◌, arith, leb, ltb, nat_eq, string_eq, if◌then◌else◌, Bool-cases, Option-cases,
  bind-some, get, get-set_self,
}
use aura_new_live_server.Study.{
  StudyContext, Study, QuizData, update, get_study_context, new_quiz, with_quiz, quiz_answered,
  ask_quiz,
}

-- A call of `generateQuizFromConversation` that the language model answers before the next one begins.
pub record Round : Type 0 where
  pub asked : ℕ
  pub answer : Option QuizData
  pub answered : ℕ

unfoldable pub generate_quiz : String → Round → Study → Study
unfolding ask_quiz quiz_answered
generate_quiz room r s = elim (ask_quiz room r.asked s) [
  | none ↦ s
  | some i ↦ quiz_answered i none r.answer r.answered s
]

unfoldable pub generate_quizzes : String → List Round → Study → Study
unfolding generate_quiz
generate_quizzes room [] s = s
generate_quizzes room (r ∷ rs) s = generate_quizzes room rs (generate_quiz room r s)

-- The context of a room, where it has one, holds at most the quizzes of a session.
abbrev pub IsLimited : String → Study → Type 0
IsLimited room s =
    (i : ℕ) (c : StudyContext) → get_study_context room s ≡ some (i, c) → c.quiz_count ≤ 10

guard-passed :
    (active : Bool) (gap count j i : ℕ)
    → (if not active || ltb gap 60000 || leb 10 count then none else some j) ≡ some i
    → (j ≡ i) × (count < 10) × (60000 ≤ gap)
guard-passed active gap count j i h =
    elim (Bool-cases (not active || ltb gap 60000 || leb 10 count)) [
      | inl closed ↦ absurd (ground arith)
      | inr opened ↦ (ground arith, ground arith, ground arith)
    ]

guard-early :
    (active : Bool) (gap count j : ℕ)
    → gap < 60000
    → (if not active || ltb gap 60000 || leb 10 count then none else some j) ≡ none
guard-early active gap count j early = ground arith

-- What an admitted request found.
ask_quiz-context :
    (room : String) (now i : ℕ) (s : Study)
    → ask_quiz room now s ≡ some i
    → (c : StudyContext) × (get room s.study_contexts ≡ some i)
      × (get i s.objects ≡ some c)
      × (c.quiz_count < 10)
      × (60000 ≤ now - c.last_quiz_time)
unfolding ask_quiz get_study_context
ask_quiz-context room now i s h =
    let ((j, c), (found, admitted)) = bind-some (get_study_context room s) _ h in
    let (j', (in_use, f1)) = bind-some (get room s.study_contexts) _ found in
    let (c', (object, f2)) = bind-some (get j' s.objects) _ f1 in
    let (same, below, apart) =
      guard-passed c.is_active (now - c.last_quiz_time) c.quiz_count j i admitted in
    (c, cc, cc, below, apart)

-- What stands in the room's place and in the object's once a quiz has arrived there.
quiz_answered-object :
    (room : String) (keyword : Option String) (a : QuizData) (u i : ℕ) (s : Study)
    (c : StudyContext)
    → get room s.study_contexts ≡ some i
    → get i s.objects ≡ some c
    → (get room (quiz_answered i keyword (some a) u s).study_contexts ≡ some i)
      × (get i (quiz_answered i keyword (some a) u s).objects
          ≡ some (with_quiz (new_quiz keyword a u c) u c))
unfolding quiz_answered update
quiz_answered-object room keyword a u i s c in_use object = (
  rw (object, update) in_use,
  rw (object, update) (get-set_self i (with_quiz (new_quiz keyword a u c) u c) s.objects),
)

get_study_context-objects :
    (room : String) (i : ℕ) (s : Study) (c : StudyContext)
    → get room s.study_contexts ≡ some i
    → get i s.objects ≡ some c
    → get_study_context room s ≡ some (i, c)
unfolding get_study_context
get_study_context-objects room i s c in_use object = rw (in_use, object) refl

quiz_answered-IsLimited :
    (room : String) (a : Option QuizData) (t u i : ℕ) (s : Study)
    → ask_quiz room t s ≡ some i
    → IsLimited room s
    → IsLimited room (quiz_answered i none a u s)
unfolding quiz_answered
quiz_answered-IsLimited room none t u i s admitted v = v
quiz_answered-IsLimited room (some a) t u i s admitted v = λ j d h.
    let (c, in_use, object, below, apart) = ask_quiz-context room t i s admitted in
    let (used, arrived) = quiz_answered-object room none a u i s c in_use object in
    let after =
      get_study_context-objects room i (quiz_answered i none (some a) u s)
        (with_quiz (new_quiz none a u c) u c) used arrived in
    let counted : d.quiz_count ≡ suc c.quiz_count = cc in omega (arith, below, counted)

generate_quiz-IsLimited :
    (room : String) (r : Round) (s : Study)
    → IsLimited room s
    → IsLimited room (generate_quiz room r s)
unfolding generate_quiz
generate_quiz-IsLimited room r s v = elim (Option-cases (ask_quiz room r.asked s)) [
  | inl refused ↦ rw (refused, generate_quiz) v
  | inr (i, admitted) ↦
      rw (admitted, generate_quiz)
        (quiz_answered-IsLimited room r.answer r.asked r.answered i s admitted v)
]

-- While each call is answered before the next begins, a room whose context has at most ten quizzes
-- never gets more than ten from the conversation.
pub generate_quizzes-IsLimited :
    (room : String) (rs : List Round) (s : Study)
    → IsLimited room s
    → IsLimited room (generate_quizzes room rs s)
unfolding generate_quizzes
generate_quizzes-IsLimited room [] s v = v
generate_quizzes-IsLimited room (r ∷ rs) s v =
    generate_quizzes-IsLimited room rs (generate_quiz room r s) (generate_quiz-IsLimited room r s v)

-- After a call that brought a quiz, a call that begins less than a minute after the quiz arrived is
-- refused.
pub generate_quiz_interval :
    (room : String) (a : QuizData) (t u i now : ℕ) (s : Study)
    → ask_quiz room t s ≡ some i
    → now < u + 60000
    → ask_quiz room now (generate_quiz room (record { asked = t; answer = some a; answered = u }) s)
      ≡ none
unfolding generate_quiz ask_quiz
generate_quiz_interval room a t u i now s admitted soon =
    let (c, in_use, object, below, apart) = ask_quiz-context room t i s admitted in
    let (used, arrived) = quiz_answered-object room none a u i s c in_use object in
    let after =
      get_study_context-objects room i (quiz_answered i none (some a) u s)
        (with_quiz (new_quiz none a u c) u c) used arrived in
    rw (admitted, generate_quiz, after, ask_quiz)
      (guard-early c.is_active (now - u) (suc c.quiz_count) i (omega (arith, soon)))

-- The answers of calls that were under way at the same time.
unfoldable pub arrivals : ℕ → List (QuizData × ℕ) → Study → Study
unfolding quiz_answered
arrivals i [] s = s
arrivals i ((a, u) ∷ ds) s = arrivals i ds (quiz_answered i none (some a) u s)

arrivals-count :
    (room : String) (i : ℕ) (ds : List (QuizData × ℕ)) (s : Study) (c : StudyContext)
    → get room s.study_contexts ≡ some i
    → get i s.objects ≡ some c
    → (d : StudyContext) × (get_study_context room (arrivals i ds s) ≡ some (i, d))
      × (d.quiz_count ≡ c.quiz_count + length ds)
unfolding arrivals
arrivals-count room i [] s c in_use object =
    (c, get_study_context-objects room i s c in_use object, omega arith)
arrivals-count room i ((a, u) ∷ ds) s c in_use object =
    let (used, arrived) = quiz_answered-object room none a u i s c in_use object in
    let (d, found, count) =
      arrivals-count room i ds (quiz_answered i none (some a) u s)
        (with_quiz (new_quiz none a u c) u c) used arrived in
    (d, found, omega (arith, count))

-- Where a call is admitted, every quiz that then arrives for the context, however many calls were
-- under way, is added to the number of quizzes.
pub ask_quiz-arrivals :
    (room : String) (now i : ℕ) (ds : List (QuizData × ℕ)) (s : Study)
    → ask_quiz room now s ≡ some i
    → (c d : StudyContext) × (get_study_context room s ≡ some (i, c))
      × (get_study_context room (arrivals i ds s) ≡ some (i, d))
      × (d.quiz_count ≡ c.quiz_count + length ds)
ask_quiz-arrivals room now i ds s admitted =
    let (c, in_use, object, below, apart) = ask_quiz-context room now i s admitted in
    let (d, found, count) = arrivals-count room i ds s c in_use object in
    (c, d, get_study_context-objects room i s c in_use object, found, count)
