-- ===== src/Voice/Captures.antt =====
-- livekit/voice-bot.service.ts: what is kept of a shared screen.
use aura_new_live_server.Prelude.{
  ℕ, ◌≡◌, refl, sym, ◌∙◌, ap, inl, inr, Bool, true, false, List, [], ◌∷◌, ◌++◌, newest,
  push_bounded, push_bounded-newest, ◌==◌, if◌then◌else◌, arith, Bool-cases, nat_eq, list_eq,
}
use aura_new_live_server.Voice.Screens.{
  ScreenCapture, Screens, no_screens, start_proactive_analysis, stop_proactive_analysis,
  add_screen_context, clear_screen_context,
}

-- What comes from the page of a participant.
pub data Happening : Type 0 where
  captures : ScreenCapture → (now : ℕ) → Happening
  clears : Happening

unfoldable pub step : Happening → Screens → Screens
unfolding add_screen_context clear_screen_context
step (captures c now) s = add_screen_context c now s
step clears s = clear_screen_context s

unfoldable pub run : List Happening → Screens → Screens
unfolding step
run [] s = s
run (h ∷ hs) s = run hs (step h s)

-- The captures that came after the last clearing.
unfoldable pub after_clearing : List Happening → List ScreenCapture → List ScreenCapture
after_clearing [] cs = cs
after_clearing (captures c now ∷ hs) cs = after_clearing hs (cs ++ c ∷ [])
after_clearing (clears ∷ hs) cs = after_clearing hs []

abbrev pub is_any : List ScreenCapture → Bool
is_any [] = false
is_any (c ∷ cs) = true

-- A state that shows these captures: the last 24 are kept, and the screen is analysed at regular
-- times exactly while there are some.
pub record Shows (cs : List ScreenCapture) (s : Screens) : Type 0 where
  pub kept : s.screen_context_history ≡ newest 24 cs
  pub mode : s.screen_understanding_mode ≡ is_any cs
  pub enabled : s.proactive_analysis.enabled ≡ is_any cs
  pub timer : s.proactive_analysis.analysis_timer ≡ is_any cs

is_any-append : (cs : List ScreenCapture) (c : ScreenCapture) → is_any (cs ++ c ∷ []) ≡ true
is_any-append [] c = refl
is_any-append (d ∷ cs) c = refl

module _ (s : Screens) where
  start_proactive_analysis_on : s.proactive_analysis.enabled ≡ true → start_proactive_analysis s ≡ s
  unfolding start_proactive_analysis
  start_proactive_analysis_on on = rw (on, start_proactive_analysis) refl

  start_proactive_analysis_off :
      s.proactive_analysis.enabled ≡ false
      → start_proactive_analysis s ≡ record s {
        proactive_analysis = record {
          enabled = true;
          last_analysis_time = 0;
          last_screen_text_hash = [];
          last_conversation_hash = [];
          analysis_timer = true;
        };
      }
  unfolding start_proactive_analysis
  start_proactive_analysis_off off = rw (off, start_proactive_analysis) refl

  stop_proactive_analysis_on :
      s.proactive_analysis.enabled ≡ true
      → stop_proactive_analysis s ≡ record s {
        proactive_analysis = record s.proactive_analysis {
          enabled = false;
          analysis_timer = false;
        };
      }
  unfolding stop_proactive_analysis
  stop_proactive_analysis_on on = rw (on, stop_proactive_analysis) refl

  stop_proactive_analysis_off : s.proactive_analysis.enabled ≡ false → stop_proactive_analysis s ≡ s
  unfolding stop_proactive_analysis
  stop_proactive_analysis_off off = rw (off, stop_proactive_analysis) refl

add_screen_context-Shows :
    (c : ScreenCapture) (now : ℕ) (cs : List ScreenCapture) (s : Screens)
    → Shows cs s
    → Shows (cs ++ c ∷ []) (add_screen_context c now s)
unfolding add_screen_context
add_screen_context-Shows c now cs s h =
    let more = is_any-append cs c in
    let kept = ap (push_bounded 24 c) h.kept ∙ push_bounded-newest 24 c cs (omega arith) in
    let added = record s {
      screen_context_history = push_bounded 24 c s.screen_context_history;
      screen_understanding_mode = true;
      screen_context_start_time =
          if s.screen_context_start_time == 0 then now else s.screen_context_start_time;
    } in
    elim (Bool-cases s.proactive_analysis.enabled) [
      | inl on ↦ rw (start_proactive_analysis_on added on) (record {
        kept = kept;
        mode = sym more;
        enabled = on ∙ sym more;
        timer = h.timer ∙ sym h.enabled ∙ on ∙ sym more;
      })
      | inr off ↦
          rw (start_proactive_analysis_off added off)
            (record { kept = kept; mode = sym more; enabled = sym more; timer = sym more })
    ]

clear_screen_context-Shows :
    (cs : List ScreenCapture) (s : Screens) → Shows cs s → Shows [] (clear_screen_context s)
unfolding clear_screen_context newest
clear_screen_context-Shows cs s h = elim (Bool-cases s.proactive_analysis.enabled) [
  | inl on ↦
      rw (stop_proactive_analysis_on s on)
        (record { kept = refl; mode = refl; enabled = refl; timer = refl })
  | inr off ↦
      rw (stop_proactive_analysis_off s off)
        (record { kept = refl; mode = refl; enabled = off; timer = h.timer ∙ sym h.enabled ∙ off })
]

run-Shows :
    (hs : List Happening) (cs : List ScreenCapture) (s : Screens)
    → Shows cs s
    → Shows (after_clearing hs cs) (run hs s)
unfolding run after_clearing step
run-Shows [] cs s h = h
run-Shows (captures c now ∷ hs) cs s h =
    run-Shows hs (cs ++ c ∷ []) (add_screen_context c now s) (add_screen_context-Shows c now cs s h)
run-Shows (clears ∷ hs) cs s h =
    run-Shows hs [] (clear_screen_context s) (clear_screen_context-Shows cs s h)

-- Whatever captures and clearings follow the start, a room keeps the newest 24 captures after the
-- last clearing, and its screen mode and the interval of its analysis are on exactly while there
-- are some.
pub run-no_screens : (hs : List Happening) → Shows (after_clearing hs []) (run hs no_screens)
unfolding newest
run-no_screens hs =
    run-Shows hs [] no_screens (record { kept = refl; mode = refl; enabled = refl; timer = refl })
