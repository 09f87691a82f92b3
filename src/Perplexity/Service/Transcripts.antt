-- ===== src/Perplexity/Service/Transcripts.antt =====
-- perplexity/perplexity.service.ts: the transcripts and the states that they show.
use text.Mathlib.Text.{find?}
use aura_new_live_server.Prelude.{
  ℕ, String, Bool, Option, none, some, List, [], ◌∷◌, ◌++◌, ltb, if◌then◌else◌, nat_eq, string_eq,
  is_some, length, any, drop, get, set,
}
use aura_new_live_server.Perplexity.{
  CognitiveState, confused, thinking, contributing, understood, Ratio, Transcript,
  PerplexitySession,
}
use aura_new_live_server.Perplexity.Wfc.{collapse_state}
use aura_new_live_server.Perplexity.Service.{Perplexity, put_session, on_active}

-- `text.includes(pattern)`
abbrev mentions : String → String → Bool
mentions text pattern = is_some (find? text pattern)

-- `inferStateFromTranscript`. The patterns are alternatives of plain texts without a cased letter, so
-- lowering the case first does not change a match; `음+` matches where `음` does.
unfoldable pub infer_state_from_transcript : String → Option CognitiveState
infer_state_from_transcript text =
    if any (mentions text)
      ("모르겠" ∷ "헷갈" ∷ "이해가 안" ∷ "뭐지" ∷ "어려" ∷ "복잡" ∷ "무슨 말" ∷ "쉽지 않" ∷ "안 되" ∷ "힘들" ∷ [])
    then some confused
    else if any (mentions text) (
        "그렇지" ∷ "맞아" ∷ "알겠" ∷ "알았" ∷ "이해했" ∷ "이해됐" ∷ "아하" ∷ "오케이" ∷ "넵" ∷ "그렇구나" ∷ "그런 거" ∷ "그거구나"
        ∷ [])
    then some understood
    else if any (mentions text) ("음" ∷ "흠" ∷ "잠깐" ∷ "그러니까" ∷ "생각해보면" ∷ "근데" ∷ "그게" ∷ [])
    then some thinking
    else if any (mentions text) ("?" ∷ "제 생각에는" ∷ "왜냐하면" ∷ "예를 들어" ∷ "설명하자면" ∷ [])
    then some contributing
    else none

-- `MAX_TRANSCRIPTS`
abbrev pub max_transcripts : ℕ
max_transcripts = 50

-- `push`, and `shift` when there are too many
unfoldable pub keep_transcript : Transcript → List Transcript → List Transcript
keep_transcript t ts =
    let ts' = ts ++ t ∷ [] in if ltb max_transcripts (length ts') then drop 1 ts' else ts'

-- The cell of a speaker whose text shows a state, at the confidence 0.9.
unfoldable pub speak : String → Option CognitiveState → ℕ → PerplexitySession → PerplexitySession
speak id none now s = s
speak id (some state) now s =
    let nine_tenths : Ratio = record { num = 9; den = 10 } in
    elim (get id s.participants) [
      | none ↦ s
      | some cell ↦ record s {
        participants =
            set id (record (collapse_state cell state nine_tenths now) { text_inferred_at = now })
              s.participants;
      }
    ]

unfoldable pub transcribed : String → String → ℕ → PerplexitySession → PerplexitySession
unfolding keep_transcript speak
transcribed id text now s =
    let t : Transcript = record { speaker = id; text = text; timestamp = now } in
    speak id (infer_state_from_transcript text) now
      (record s { recent_transcripts = keep_transcript t s.recent_transcripts })

-- `addTranscript`
unfoldable pub add_transcript :
    String → String → String → ℕ → Perplexity → Option CognitiveState × Perplexity
unfolding on_active transcribed
add_transcript room id text now p =
    on_active (get room p.sessions) p
      (λ s. (infer_state_from_transcript text, put_session room (transcribed id text now s) p))
