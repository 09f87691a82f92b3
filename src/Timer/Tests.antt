-- ===== src/Timer/Tests.antt =====
-- The timer at concrete inputs.
use mathlib.Core.Option
use aura_new_live_server.Prelude.{
  ℕ, ◌≡◌, refl, String, true, none, some, List, [], ◌∷◌, arith, get, set, delete, has, nat_eq,
  string_eq,
}
use aura_new_live_server.Timer.{
  running, TimerData, Timers, init, set_timer_notify_callback, start_timer, pause_timer,
  resume_timer, extend_timer, fire, tick, stop_timer_interval, start_interval, over,
}
use aura_new_live_server.Timer.Command.{Options, execute}
use aura_new_live_server.Timer.Intervals.{is_counting}
use aura_new_live_server.Timer.Histories.{
  Happening, registers, calls, rounds as fires, run, step, run_one_interval, run-has_interval,
}
use aura_new_live_server.Timer.Countdown.{rounds, warning_notice, ended_notice}
use aura_new_live_server.Timer.Endings.{start_timer-rounds_end}
use aura_new_live_server.Timer.Commands.{start_timer-extend_timer}

abbrev options : String → Options
options action = record {
  action = action;
  target_minutes = some 1;
  warning_minutes = none;
  minutes = none;
}

abbrev listening : Timers
listening = record init { notify_callback = true }

abbrev history : List Happening
history =
    registers
    ∷ calls (some "a") (options "start") 5
    ∷ calls (some "b") (options "start") 6
    ∷ fires 0
    ∷ calls (some "a") (options "pause") 7
    ∷ calls (some "a") (options "resume") 8
    ∷ []

-- The interval of room "a" is a new one after the pause.
history_live : (run init history).live ≡ (1, "b") ∷ (2, "a") ∷ []
unfolding run step execute fire tick start_timer pause_timer resume_timer stop_timer_interval
    start_interval set_timer_notify_callback get set delete
history_live = refl

history_left :
    Option.map (λ t. t.remaining_seconds) (get "a" (run init history).timer_store) ≡ some 59
unfolding run step execute fire tick start_timer pause_timer resume_timer stop_timer_interval
    start_interval set_timer_notify_callback get set delete
history_left = refl

run_one_interval_example : ◌≡◌ {A = ℕ} 2 2
run_one_interval_example = run_one_interval history 2 2 "a" in_room in_room
  where
    in_room : get 2 (run init history).live ≡ some "a"
    in_room = rw history_live (unfold get in refl)

run-has_interval_example :
    has "a" (run init history).timer_intervals
    ≡ is_counting (get "a" (run init history).timer_store)
run-has_interval_example = run-has_interval history "a"

abbrev short : TimerData × Timers
short = start_timer "a" 2 1 1000 listening

start_timer-rounds_end_example :
    (get "a" (rounds 120 "a" short.1).timer_store ≡ some (over short.0))
    × ((rounds 120 "a" short.1).sent ≡ warning_notice "a" short.0 ∷ ended_notice "a" short.0 ∷ [])
start_timer-rounds_end_example =
    start_timer-rounds_end "a" 2 1 1000 listening refl (omega arith) (omega arith)

abbrev stored : TimerData
stored = record {
  room_id = "a";
  target_minutes = 30;
  warning_minutes = 5;
  remaining_seconds = 1000;
  timer_state = running;
  started_at = 1;
  end_time = 1_800_001;
}

abbrev one : Timers
one = record init { timer_store = ("a", stored) ∷ [] }

start_timer-extend_timer_example :
    get "a" (extend_timer "a" 10 5000 (rounds 30 "a" short.1)).1.timer_store
    ≡ some (record short.0 { target_minutes = 12; remaining_seconds = 690; end_time = 121_000 })
start_timer-extend_timer_example =
    start_timer-extend_timer "a" 2 1 1000 30 10 5000 listening refl (omega arith) (omega arith)
