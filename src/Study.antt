-- ===== src/Study.antt =====
-- study/study-mode.service.ts: quizzes, answers and scores of a study room.
pub mod Answers
pub mod Invariant
pub mod Histories
pub mod Scores
pub mod Ranking
mod Tests
pub mod Quizzes
use aura_new_live_server.Prelude.{
  ℕ, suc, ◌+◌, ◌-◌, ◌*◌, String, Bool, true, false, not, ◌&&◌, ◌||◌, Option, none, some, List, [],
  ◌∷◌, ◌++◌, ltb, leb, ◌==◌, if◌then◌else◌, nat_eq, string_eq, Table, get, has, set, delete, values,
  ◌>>=◌,
}

-- `StudyQuiz`: the identifier is the time it carries; an index that is no natural number is none.
pub record StudyQuiz : Type 0 where
  pub id : ℕ
  pub question : String
  pub options : List String
  pub correct_index : Option ℕ
  pub explanation : String
  pub points : ℕ
  pub topic : String

-- `StudyParticipant`
pub record StudyParticipant : Type 0 where
  pub participant_id : String
  pub participant_name : String
  pub score : ℕ
  pub correct_answers : ℕ
  pub total_answers : ℕ
  pub streak : ℕ
  pub last_answer_correct : Bool

-- `StudyContext`, without the keywords of the conversation, which nothing writes; a follow-up question is
-- pending while there is one.
pub record StudyContext : Type 0 where
  pub is_active : Bool
  pub start_time : ℕ
  pub duration : ℕ
  pub topic : String
  pub participants : Table String StudyParticipant
  pub current_quiz : Option StudyQuiz
  pub quiz_history : List StudyQuiz
  pub last_quiz_time : ℕ
  pub quiz_count : ℕ
  pub follow_up_question : Option String

-- The service. A call that waits for the language model keeps the context it began with, even when
-- the room has another by then: contexts are objects, and a room has the reference of one.
pub record Study : Type 0 where
  pub objects : Table ℕ StudyContext
  pub study_contexts : Table String ℕ
  pub allocated : ℕ

abbrev pub init : Study
init = record { objects = []; study_contexts = []; allocated = 0 }

-- A write through a reference.
unfoldable pub update : ℕ → (StudyContext → StudyContext) → Study → Study
update i f s = elim (get i s.objects) [
  | none ↦ s
  | some c ↦ record s { objects = set i (f c) s.objects }
]

unfoldable pub get_study_context : String → Study → Option (ℕ × StudyContext)
get_study_context room s = do i ← get room s.study_contexts; c ← get i s.objects; some (i, c)

abbrev pub new_context : String → ℕ → ℕ → StudyContext
new_context topic duration_seconds now = record {
  is_active = true;
  start_time = now;
  duration = duration_seconds;
  topic = topic;
  participants = [];
  current_quiz = none;
  quiz_history = [];
  last_quiz_time = 0;
  quiz_count = 0;
  follow_up_question = none;
}

-- `startStudyMode`
unfoldable pub start_study_mode : String → String → ℕ → ℕ → Study → Study
start_study_mode room topic duration_seconds now s =
    let i = suc s.allocated in
    record {
      objects = set i (new_context topic duration_seconds now) s.objects;
      study_contexts = set room i s.study_contexts;
      allocated = i;
    }

abbrev pub in_room : String → (StudyContext → StudyContext) → Study → Study
in_room room f s = elim (get room s.study_contexts) [ none ↦ s | some i ↦ update i f s ]

-- `endStudyMode`
unfoldable pub end_study_mode : String → Study → Study
unfolding update
end_study_mode room s = in_room room (λ c. record c { is_active = false }) s

abbrev pub new_participant : String → String → StudyParticipant
new_participant id name = record {
  participant_id = id;
  participant_name = name;
  score = 0;
  correct_answers = 0;
  total_answers = 0;
  streak = 0;
  last_answer_correct = false;
}

unfoldable pub join : String → String → StudyContext → StudyContext
join id name c =
    if has id c.participants
    then c
    else record c { participants = set id (new_participant id name) c.participants }

-- `addParticipant`
unfoldable pub add_participant : String → String → String → Study → Study
unfolding update join
add_participant room id name s = in_room room (join id name) s

abbrev pub min_quiz_interval_ms : ℕ
min_quiz_interval_ms = 60000

abbrev pub max_quizzes_per_session : ℕ
max_quizzes_per_session = 10

-- `generateQuizFromConversation` up to the request to the language model: the context that the answer
-- will be written to, or none where the call returns null.
unfoldable pub ask_quiz : String → ℕ → Study → Option ℕ
unfolding get_study_context
ask_quiz room now s = do
  (i, c) ← get_study_context room s
  (if not c.is_active
        || ltb (now - c.last_quiz_time) min_quiz_interval_ms
        || leb max_quizzes_per_session c.quiz_count
      then none
      else some i)

-- `generateSurpriseQuiz` up to the request.
unfoldable pub ask_surprise_quiz : String → Study → Option ℕ
unfolding get_study_context
ask_surprise_quiz room s = do
  (i, c) ← get_study_context room s
  (if c.is_active then some i else none)

-- What the language model answers a request for a quiz with.
pub record QuizData : Type 0 where
  pub question : String
  pub options : List String
  pub correct_index : Option ℕ
  pub explanation : String
  pub topic : Option String

abbrev pub topic_or : Option String → String → String
topic_or none default = default
topic_or (some topic) default = if topic == "" then default else topic

-- The quiz of an answer: a surprise quiz has its keyword as the topic.
abbrev pub new_quiz : Option String → QuizData → ℕ → StudyContext → StudyQuiz
new_quiz keyword answer now c = record {
  id = now;
  question = answer.question;
  options = answer.options;
  correct_index = answer.correct_index;
  explanation = answer.explanation;
  points = 100;
  topic = elim keyword [ none ↦ topic_or answer.topic c.topic | some word ↦ word ];
}

abbrev pub with_quiz : StudyQuiz → ℕ → StudyContext → StudyContext
with_quiz quiz now c = record c {
  current_quiz = some quiz;
  last_quiz_time = now;
  quiz_count = suc c.quiz_count;
  quiz_history = c.quiz_history ++ quiz ∷ [];
}

-- Both generations from the answer of the language model on, none where it is no quiz.
unfoldable pub quiz_answered : ℕ → Option String → Option QuizData → ℕ → Study → Study
unfolding update
quiz_answered i keyword none now s = s
quiz_answered i keyword (some answer) now s =
    update i (λ c. with_quiz (new_quiz keyword answer now c) now c) s
