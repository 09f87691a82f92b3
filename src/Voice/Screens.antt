-- ===== src/Voice/Screens.antt =====
-- livekit/voice-bot.service.ts: the captures of a shared screen, and when they are analysed.
use aura_new_live_server.Prelude.{
  Text, ℕ, ◌+◌, Option, none, some, Bool, true, false, ◌&&◌, List, [], ◌∷◌, ◌++◌, map, length,
  newest, push_bounded, ◌==◌, if◌then◌else◌, nat_eq, list_eq,
}
use aura_new_live_server.Voice.Conversation.{ConversationTurn, user, assistant}

-- `ScreenCapture`
pub record ScreenCapture : Type 0 where
  pub extracted_text : Text
  pub capture_index : ℕ
  pub timestamp : ℕ

-- `proactiveAnalysis`; its timer is an interval that is live or not.
pub record Analysis : Type 0 where
  pub enabled : Bool
  pub last_analysis_time : ℕ
  pub last_screen_text_hash : Text
  pub last_conversation_hash : Text
  pub analysis_timer : Bool

-- The fields of a room's context for the screen.
pub record Screens : Type 0 where
  pub screen_understanding_mode : Bool
  pub screen_context_history : List ScreenCapture
  pub screen_context_start_time : ℕ
  pub proactive_analysis : Analysis

abbrev pub no_screens : Screens
no_screens = record {
  screen_understanding_mode = false;
  screen_context_history = [];
  screen_context_start_time = 0;
  proactive_analysis = record {
    enabled = false;
    last_analysis_time = 0;
    last_screen_text_hash = [];
    last_conversation_hash = [];
    analysis_timer = false;
  };
}

abbrev pub max_screen_captures : ℕ
max_screen_captures = 24

-- `startProactiveAnalysis`
unfoldable pub start_proactive_analysis : Screens → Screens
start_proactive_analysis s = if s.proactive_analysis.enabled then s else record s {
  proactive_analysis = record {
    enabled = true;
    last_analysis_time = 0;
    last_screen_text_hash = [];
    last_conversation_hash = [];
    analysis_timer = true;
  };
}

-- `stopProactiveAnalysis`, but for the cooldowns of the service, which it clears
unfoldable pub stop_proactive_analysis : Screens → Screens
stop_proactive_analysis s =
    if s.proactive_analysis.enabled
    then record s {
      proactive_analysis = record s.proactive_analysis { enabled = false; analysis_timer = false };
    }
    else s

-- `addScreenContext`, on the context of a room
unfoldable pub add_screen_context : ScreenCapture → ℕ → Screens → Screens
unfolding start_proactive_analysis
add_screen_context capture now s = start_proactive_analysis (record s {
  screen_context_history = push_bounded max_screen_captures capture s.screen_context_history;
  screen_understanding_mode = true;
  screen_context_start_time =
      if s.screen_context_start_time == 0 then now else s.screen_context_start_time;
})

-- `clearScreenContext`
unfoldable pub clear_screen_context : Screens → Screens
unfolding stop_proactive_analysis
clear_screen_context s = record (stop_proactive_analysis s) {
  screen_context_history = [];
  screen_understanding_mode = false;
  screen_context_start_time = 0;
}

-- `hasScreenContext`
abbrev pub has_screen_context : Screens → Bool
has_screen_context s = elim s.screen_context_history [ [] ↦ false | (c ∷ cs) ↦ true ]

unfoldable pub total_text_length : List ScreenCapture → ℕ
total_text_length [] = 0
total_text_length (c ∷ cs) = length c.extracted_text + total_text_length cs

-- `getScreenContextStatus`
unfoldable pub get_screen_context_status : Screens → Bool × ℕ × ℕ
unfolding total_text_length
get_screen_context_status s = (
  s.screen_understanding_mode,
  length s.screen_context_history,
  total_text_length s.screen_context_history,
)

-- `md5` of the runtime's library, in hexadecimal digits, and its first sixteen
module _ (md5_start : Text → Text) where
  unfoldable pub joined : List Text → Text
  joined [] = []
  joined (t ∷ ts) = elim ts [ [] ↦ t | (u ∷ us) ↦ t ++ 124 ∷ 124 ∷ joined ts ]

  -- `hashTexts`
  abbrev pub hash_texts : List Text → Text
  hash_texts texts = md5_start (joined texts)

  -- 사용자 and 아우라, and the colon
  abbrev pub turn_text : ConversationTurn → Text
  turn_text t = elim t.role [
    | user ↦ 49324 ∷ 50857 ∷ 51088 ∷ 58 ∷ 32 ∷ t.content
    | assistant ↦ 50500 ∷ 50864 ∷ 46972 ∷ 58 ∷ 32 ∷ t.content
  ]

  -- `runProactiveAnalysis`, until the call of the model: the texts to analyse, if any
  unfoldable pub run_proactive_analysis :
      List ConversationTurn → ℕ → Screens → Screens × Option (List Text × List Text)
  unfolding newest joined
  run_proactive_analysis conversation now s =
      let a = s.proactive_analysis in
      let screen_texts = map (λ c. c.extracted_text) (newest 3 s.screen_context_history) in
      let recent_conversation = map turn_text (newest 5 conversation) in
      let screen_hash = hash_texts screen_texts in
      let conversation_hash = hash_texts recent_conversation in
      if a.enabled && s.screen_understanding_mode
      then if screen_hash == a.last_screen_text_hash
          && conversation_hash == a.last_conversation_hash
        then (s, none)
        else (
          record s {
            proactive_analysis = record a {
              last_screen_text_hash = screen_hash;
              last_conversation_hash = conversation_hash;
              last_analysis_time = now;
            };
          },
          some (screen_texts, recent_conversation),
        )
      else (s, none)
