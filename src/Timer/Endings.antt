-- ===== src/Timer/Endings.antt =====
-- mcp/tools/timer.tool.ts: the warning and the end of a timer, from its start.
use aura_new_live_server.Prelude.{
  ℕ, ◌-◌, ◌*◌, ◌≤◌, ◌<◌, ◌≡◌, refl, ◌∙◌, inl, inr, String, true, some, [], ◌∷◌, ◌++◌, append_assoc,
  arith, nat_eq, string_eq, get,
}
use aura_new_live_server.Timer.{Timers, start_timer, over}
use aura_new_live_server.Timer.Countdown.{
  rounds, rounds-split, minus, rounds_quiet, at_warning, ended_notice, warning_notice, rounds_warns,
  rounds_ends, start_timer-Shows,
}

-- A timer that is started with a callback registered and a warning time of at least one minute
-- shows, after a number of rounds before the warning is due, its length less as many seconds, and
-- nothing has been sent.
pub start_timer-rounds :
    (room : String) (target warning_at now n : ℕ) (s : Timers)
    → s.notify_callback ≡ true
    → 0 < warning_at
    → n < (target - warning_at) * 60
    → let (t, s') = start_timer room target warning_at now s in
      (get room (rounds n room s').timer_store ≡ some (minus t n))
      × ((rounds n room s').sent ≡ s.sent)
unfolding start_timer
start_timer-rounds room target warning_at now n s listening some_warning before =
    let (t, s') = start_timer room target warning_at now s in
    let here =
      rounds_quiet n room t s.sent s' (start_timer-Shows room target warning_at now s listening)
        refl (omega arith) (inr (inl (omega arith))) in
    (here.stored, here.told)

-- A timer that is started with a callback registered and a warning time of at least one minute and
-- less than its length has ended, with 0 seconds left, after as many rounds as it has seconds, and
-- exactly two notices have been sent for it: the warning and then the end.
pub start_timer-rounds_end :
    (room : String) (target warning_at now : ℕ) (s : Timers)
    → s.notify_callback ≡ true
    → 0 < warning_at
    → warning_at < target
    → let (t, s') = start_timer room target warning_at now s in
      (get room (rounds (target * 60) room s').timer_store ≡ some (over t))
      × ((rounds (target * 60) room s').sent
          ≡ s.sent ++ warning_notice room t ∷ ended_notice room t ∷ [])
unfolding start_timer
start_timer-rounds_end room target warning_at now s listening some_warning below =
    let (t, s') = start_timer room target warning_at now s in
    let first =
      rounds_warns room t s.sent s' (start_timer-Shows room target warning_at now s listening) refl
        some_warning (omega arith) in
    let last =
      rounds_ends (warning_at * 60) room (at_warning t) _ _ refl first refl (omega arith)
        (inl refl) in
    let both =
      rounds-split (target * 60) (target * 60 - warning_at * 60) (warning_at * 60) room s'
        (omega arith) in
    (rw both last.stored, rw both (last.told ∙ append_assoc s.sent _ _))

-- A timer that is started with a callback registered and a warning time of at least its length,
-- which is not 0, has ended after as many rounds as it has seconds, and the end is the only notice.
pub start_timer-rounds_silent :
    (room : String) (target warning_at now : ℕ) (s : Timers)
    → s.notify_callback ≡ true
    → 0 < target
    → target ≤ warning_at
    → let (t, s') = start_timer room target warning_at now s in
      (get room (rounds (target * 60) room s').timer_store ≡ some (over t))
      × ((rounds (target * 60) room s').sent ≡ s.sent ++ ended_notice room t ∷ [])
unfolding start_timer
start_timer-rounds_silent room target warning_at now s listening some_time above =
    let (t, s') = start_timer room target warning_at now s in
    let last =
      rounds_ends (target * 60) room t s.sent s' refl
        (start_timer-Shows room target warning_at now s listening) refl (omega arith)
        (inr (inr (omega arith))) in
    (last.stored, last.told)
