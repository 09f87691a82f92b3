-- ===== src/Voice/Diagrams.antt =====
-- livekit/voice-bot.service.ts: what is said that matters for the diagrams of the design board.
use text.Mathlib.Text.{find?}
use aura_new_live_server.Prelude.{
  ℕ, zero, suc, String, Bool, Option, none, some, List, [], ◌∷◌, ◌++◌, length, any, keep, ltb, ◌==◌,
  if◌then◌else◌, nat_eq, string_eq, is_some, sort_by, place,
}

pub data DiagramType : Type 0 where
  flowchart sequence erd architecture : DiagramType

-- `DIAGRAM_KEYWORDS`
unfoldable pub diagram_keywords : DiagramType → List String
diagram_keywords flowchart =
    "먼저" ∷ "그 다음" ∷ "그리고" ∷ "마지막으로" ∷ "최종적으로" ∷ "첫 번째" ∷ "두 번째" ∷ "세 번째" ∷ "만약" ∷ "~하면" ∷ "~할 경우"
    ∷ "아니면" ∷ "그렇지 않으면" ∷ "반복" ∷ "계속" ∷ "~할 때까지" ∷ "단계" ∷ "과정" ∷ "절차" ∷ "순서" ∷ "흐름" ∷ "워크플로우" ∷ "시작"
    ∷ "종료" ∷ "처리" ∷ "검증" ∷ "확인" ∷ "저장" ∷ "전송" ∷ []
diagram_keywords sequence =
    "API" ∷ "호출" ∷ "요청" ∷ "응답" ∷ "request" ∷ "response" ∷ "프론트엔드" ∷ "백엔드" ∷ "서버" ∷ "클라이언트"
    ∷ "데이터베이스" ∷ "전송" ∷ "수신" ∷ "반환" ∷ "리턴" ∷ "콜백" ∷ "callback" ∷ "다음" ∷ "그 후" ∷ "이후" ∷ "완료되면"
    ∷ "성공하면" ∷ "실패하면" ∷ "GET" ∷ "POST" ∷ "PUT" ∷ "DELETE" ∷ "PATCH" ∷ []
diagram_keywords erd =
    "테이블" ∷ "엔티티" ∷ "entity" ∷ "table" ∷ "관계" ∷ "참조" ∷ "외래키" ∷ "foreign key" ∷ "일대다" ∷ "다대다" ∷ "일대일"
    ∷ "필드" ∷ "컬럼" ∷ "column" ∷ "속성" ∷ "attribute" ∷ "데이터" ∷ "모델" ∷ "model" ∷ "스키마" ∷ "schema" ∷ "저장"
    ∷ "조회" ∷ "수정" ∷ "삭제" ∷ "생성" ∷ []
diagram_keywords architecture =
    "아키텍처" ∷ "구조" ∷ "설계" ∷ "시스템" ∷ "컴포넌트" ∷ "모듈" ∷ "서비스" ∷ "레이어" ∷ "layer" ∷ "마이크로서비스" ∷ "모놀리식"
    ∷ "MVC" ∷ "MVP" ∷ "MVVM" ∷ "서버" ∷ "클라우드" ∷ "AWS" ∷ "GCP" ∷ "Azure" ∷ "컨테이너" ∷ "도커" ∷ "연동" ∷ "통합"
    ∷ "인터페이스" ∷ "게이트웨이" ∷ []

-- `DiagramStatement`
pub record DiagramStatement : Type 0 where
  pub speaker : String
  pub text : String
  pub keywords : List String
  pub timestamp : ℕ

-- `DiagramContext`
pub record DiagramContext : Type 0 where
  pub keywords : List String
  pub statements : List DiagramStatement
  pub last_updated : ℕ

abbrev pub empty_context : DiagramContext
empty_context = record { keywords = []; statements = []; last_updated = 0 }

-- `DiagramContexts`
pub record DiagramContexts : Type 0 where
  pub flowchart_context : DiagramContext
  pub sequence_context : DiagramContext
  pub erd_context : DiagramContext
  pub architecture_context : DiagramContext

-- `createEmptyDiagramContexts`
abbrev pub create_empty_diagram_contexts : DiagramContexts
create_empty_diagram_contexts = record {
  flowchart_context = empty_context;
  sequence_context = empty_context;
  erd_context = empty_context;
  architecture_context = empty_context;
}

abbrev pub context_of : DiagramType → DiagramContexts → DiagramContext
context_of flowchart c = c.flowchart_context
context_of sequence c = c.sequence_context
context_of erd c = c.erd_context
context_of architecture c = c.architecture_context

-- `new Set([...keywords, ...more])`, as an array
unfoldable pub add_unique : String → List String → List String
unfolding any
add_unique k keywords = if any (λ j. j == k) keywords then keywords else keywords ++ k ∷ []

unfoldable pub unique : List String → List String → List String
unfolding add_unique
unique keywords [] = keywords
unique keywords (k ∷ more) = unique (add_unique k keywords) more

-- `toLowerCase` of the runtime
module _ (to_lower_case : String → String) where
  -- `lowerText.includes(keyword.toLowerCase())`
  abbrev pub mentions : String → String → Bool
  mentions text keyword = is_some (find? (to_lower_case text) (to_lower_case keyword))

  -- `detectDiagramKeywords`, for one type: none if it has no entry in the map
  unfoldable pub detect_diagram_keywords : DiagramType → String → List String
  unfolding keep diagram_keywords
  detect_diagram_keywords type text = keep (mentions text) (diagram_keywords type)

  -- The body of the loop of `updateDiagramContexts`, for the type of a context
  unfoldable pub update_diagram_context :
      DiagramType → String → String → ℕ → DiagramContext → DiagramContext
  unfolding detect_diagram_keywords unique
  update_diagram_context type text speaker now c =
      let keywords = detect_diagram_keywords type text in
      let statement : DiagramStatement = record {
        speaker = speaker;
        text = text;
        keywords = keywords;
        timestamp = now;
      } in
      if ltb 0 (length keywords)
      then record {
        statements = c.statements ++ statement ∷ [];
        keywords = unique [] (c.keywords ++ keywords);
        last_updated = now;
      }
      else c

  -- `updateDiagramContexts`, on the contexts of a room
  unfoldable pub update_diagram_contexts : String → String → ℕ → DiagramContexts → DiagramContexts
  unfolding update_diagram_context
  update_diagram_contexts text speaker now c = record {
    flowchart_context = update_diagram_context flowchart text speaker now c.flowchart_context;
    sequence_context = update_diagram_context sequence text speaker now c.sequence_context;
    erd_context = update_diagram_context erd text speaker now c.erd_context;
    architecture_context =
        update_diagram_context architecture text speaker now c.architecture_context;
  }

-- A row of `getDiagramContextsSummary`
pub record Summary : Type 0 where
  pub has_content : Bool
  pub keywords : List String
  pub statement_count : ℕ
  pub last_updated : ℕ

unfoldable pub first_keywords : ℕ → List String → List String
first_keywords zero ks = []
first_keywords (suc n) [] = []
first_keywords (suc n) (k ∷ ks) = k ∷ first_keywords n ks

unfoldable pub get_diagram_contexts_summary : DiagramContext → Summary
unfolding first_keywords
get_diagram_contexts_summary c = record {
  has_content = ltb 0 (length c.statements);
  keywords = first_keywords 10 c.keywords;
  statement_count = length c.statements;
  last_updated = c.last_updated;
}

-- `(a, b) => a.timestamp - b.timestamp`
abbrev pub is_later : DiagramStatement → DiagramStatement → Bool
is_later a b = ltb b.timestamp a.timestamp

abbrev pub focused : List DiagramStatement → Option (List DiagramStatement)
focused [] = none
focused (s ∷ rest) = some (sort_by is_later (s ∷ rest))

-- `buildFocusedTranscript`, as the statements of its lines
unfoldable pub build_focused_transcript : DiagramContext → Option (List DiagramStatement)
unfolding sort_by place
build_focused_transcript c = focused c.statements
