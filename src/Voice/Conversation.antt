-- ===== src/Voice/Conversation.antt =====
-- livekit/voice-bot.service.ts: the history of the conversation.

use aura_new_live_server.Prelude.{
  Text, ℕ, ◌-◌, ◌*◌, Bool, false, ◌&&◌, ◌||◌, Option, none, some, List, [], ◌∷◌, ◌++◌, length, keep,
  any, newest, leb, ltb, ◌==◌, if◌then◌else◌, is_space, skip, all_in, trim, after, nat_eq,
}

pub data Role : Type 0 where
  user assistant : Role

-- `ConversationTurn`
pub record ConversationTurn : Type 0 where
  pub role : Role
  pub content : Text
  pub timestamp : ℕ
  pub speaker : Option Text

abbrev pub max_conversation_turns : ℕ
max_conversation_turns = 30

abbrev pub conversation_expire_ms : ℕ
conversation_expire_ms = 300000

-- 아우라, 헤이 and 오케이
abbrev pub aura : Text
aura = 50500 ∷ 50864 ∷ 46972 ∷ []

abbrev pub hey : Text
hey = 54756 ∷ 51060 ∷ []

abbrev pub okay : Text
okay = 50724 ∷ 52992 ∷ 51060 ∷ []

-- `아우라야?`
unfoldable pub after_aura : Text → Option Text
unfolding after
after_aura text = elim (after aura text) [
  | none ↦ none
  | some [] ↦ some []
  | some (c ∷ cs) ↦ some (if c == 50556 then cs else c ∷ cs)
]

-- `헤이\s*아우라`, and the same with 오케이
unfoldable pub after_call : Text → Text → Option Text
unfolding after skip
after_call word text = elim (after word text) [
  | none ↦ none
  | some rest ↦ after aura (skip is_space rest)
]

-- `text.replace(/^(아우라야?|헤이\s*아우라|오케이\s*아우라)\s*/gi, '')`: the three begin differently.
unfoldable pub without_wake_word : Text → Text
unfolding after_aura after_call skip
without_wake_word text = elim (after_aura text) [
  | some rest ↦ skip is_space rest
  | none ↦ elim (after_call hey text) [
    | some rest ↦ skip is_space rest
    | none ↦ elim (after_call okay text) [ some rest ↦ skip is_space rest | none ↦ text ]
  ]
]

-- `/^(a+|b+|...)[class]*$/`, where no letter is in the class: a run of one of the letters, and then
-- only the class
unfoldable pub is_run : List ℕ → (ℕ → Bool) → Text → Bool
unfolding any skip all_in
is_run letters class [] = false
is_run letters class (c ∷ cs) = any (λ l. l == c) letters && all_in class (skip (λ d. d == c) cs)

-- 음 어 아 으 에 응 네 예 야, and 그 저 이
abbrev pub fillers : List ℕ
fillers = 51020 ∷ 50612 ∷ 50500 ∷ 51004 ∷ 50640 ∷ 51025 ∷ 45348 ∷ 50696 ∷ 50556 ∷ []

abbrev pub short_fillers : List ℕ
short_fillers = 51020 ∷ 50612 ∷ 50500 ∷ 51004 ∷ []

abbrev pub pointers : List ℕ
pointers = 44536 ∷ 51200 ∷ 51060 ∷ []

-- `[\.\?\!]`, `[\s\.\,]` and `[\.\?\!\,\s]`
abbrev pub is_ending : ℕ → Bool
is_ending c = c == 46 || c == 63 || c == 33

abbrev pub is_pause : ℕ → Bool
is_pause c = is_space c || c == 46 || c == 44

abbrev pub is_mark : ℕ → Bool
is_mark c = is_ending c || c == 44 || is_space c

unfoldable pub is_filler : Text → Bool
unfolding is_run all_in
is_filler [] = false
is_filler (c ∷ cs) =
    is_run fillers is_ending (c ∷ cs)
    || is_run short_fillers is_pause (c ∷ cs)
    || is_run pointers is_pause (c ∷ cs)
    || all_in is_mark (c ∷ cs)

-- `cleanForHistory`
unfoldable pub clean_for_history : Text → Text
unfolding trim without_wake_word is_filler
clean_for_history text =
    let cleaned = trim (without_wake_word text) in if is_filler cleaned then [] else cleaned

-- `turn => now - turn.timestamp < this.CONVERSATION_EXPIRE_MS`
abbrev pub is_recent : ℕ → ConversationTurn → Bool
is_recent now turn = ltb (now - turn.timestamp) conversation_expire_ms

-- A turn is pushed if its cleaned text has three units.
unfoldable pub push_turn :
    Role → Text → ℕ → Option Text → List ConversationTurn → List ConversationTurn
push_turn role cleaned now speaker history =
    if leb 3 (length cleaned)
    then history
      ++ record { role = role; content = cleaned; timestamp = now; speaker = speaker } ∷ []
    else history

-- The limit on the number of turns.
unfoldable pub limited : List ConversationTurn → List ConversationTurn
unfolding newest
limited history =
    if ltb (max_conversation_turns * 2) (length history)
    then newest (max_conversation_turns * 2) history
    else history

-- `updateConversationHistory`
unfoldable pub update_conversation_history :
    Text → Text → Text → ℕ → List ConversationTurn → List ConversationTurn
unfolding keep push_turn limited
update_conversation_history user_message bot_response user_id now history =
    let recent = keep (is_recent now) history in
    let asked = push_turn user (clean_for_history user_message) now (some user_id) recent in
    limited (push_turn assistant (clean_for_history bot_response) now none asked)

-- The turn that `processHostQuery` pushes, as it is
abbrev pub host_query_turn : Text → Text → ℕ → List ConversationTurn → List ConversationTurn
host_query_turn query host now history =
    history ++ record { role = user; content = query; timestamp = now; speaker = some host } ∷ []

-- 참여자 and 아우라, and the colon
abbrev pub role_label : Role → Text
role_label user = 52280 ∷ 50668 ∷ 51088 ∷ 58 ∷ 32 ∷ []
role_label assistant = 50500 ∷ 50864 ∷ 46972 ∷ 58 ∷ 32 ∷ []

unfoldable pub turn_lines : List ConversationTurn → Text
turn_lines [] = []
turn_lines (t ∷ ts) = role_label t.role ++ t.content ++ 10 ∷ turn_lines ts

-- `buildConversationContext`
unfoldable pub build_conversation_context : List ConversationTurn → Text → Text
unfolding turn_lines newest
build_conversation_context history current_text =
    turn_lines (newest 5 history) ++ role_label user ++ current_text
