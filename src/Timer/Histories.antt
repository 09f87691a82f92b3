-- ===== src/Timer/Histories.antt =====
-- mcp/tools/timer.tool.ts: sequences of commands and rounds.
use aura_new_live_server.Prelude.{
  ℕ, ◌≡◌, inl, inr, String, Option, none, some, List, [], ◌∷◌, arith, ◌==◌, nat_eq, string_eq,
  Bool-cases, get, has,
}
use aura_new_live_server.Timer.{Timers, init, set_timer_notify_callback, fire}
use aura_new_live_server.Timer.Command.{Options, execute, dispatch_rule}
use aura_new_live_server.Timer.Intervals.{is_counting}
use aura_new_live_server.Timer.Invariant.{
  IsValid, init-IsValid, start_timer-IsValid, pause_timer-IsValid, resume_timer-IsValid,
  extend_timer-IsValid, stop_timer-IsValid,
}
use aura_new_live_server.Timer.Ticks.{fire-IsValid, set_timer_notify_callback-IsValid}

-- What happens to the module: the bot registers its callback, the tool is called, or the runtime
-- runs the interval of a handle.
pub data Happening : Type 0 where
  registers : Happening
  calls : Option String → Options → ℕ → Happening
  rounds : ℕ → Happening

unfoldable pub step : Timers → Happening → Timers
step s registers = set_timer_notify_callback s
step s (calls room o now) = (execute room o now s).1
step s (rounds handle) = fire handle s

unfoldable pub run : Timers → List Happening → Timers
run s [] = s
run s (h ∷ hs) = run (step s h) hs

execute-IsValid :
    (room : Option String) (o : Options) (now : ℕ) (s : Timers)
    → IsValid s
    → IsValid (execute room o now s).1
unfolding execute
execute-IsValid none o now s v = v
execute-IsValid (some room) o now s v = elim (Bool-cases (room == "")) [
  | inl blank ↦ rw blank v
  | inr named ↦ rw named (
      dispatch_rule IsValid room o now s (λ t w. start_timer-IsValid room t w now s v)
        (pause_timer-IsValid room s v) (resume_timer-IsValid room now s v)
        (λ m. extend_timer-IsValid room m now s v) (stop_timer-IsValid room s v) v)
]

step-IsValid : (s : Timers) (h : Happening) → IsValid s → IsValid (step s h)
unfolding step
step-IsValid s registers v = set_timer_notify_callback-IsValid s v
step-IsValid s (calls room o now) v = execute-IsValid room o now s v
step-IsValid s (rounds handle) v = fire-IsValid handle s v

-- Every state that is reached from a valid state is valid.
pub run-IsValid : (s : Timers) (hs : List Happening) → IsValid s → IsValid (run s hs)
unfolding run
run-IsValid s [] v = v
run-IsValid s (h ∷ hs) v = run-IsValid (step s h) hs (step-IsValid s h v)

-- Whatever sequence of commands and rounds follows the start, two live intervals whose callbacks
-- belong to one room are the same interval.
pub run_one_interval :
    (hs : List Happening) (h h' : ℕ) (room : String)
    → get h (run init hs).live ≡ some room
    → get h' (run init hs).live ≡ some room
    → h ≡ h'
run_one_interval hs h h' room p q =
    let w = (run-IsValid init hs init-IsValid).wired in
    ground (arith, w.known h room p, w.known h' room q)

-- Whatever sequence of commands and rounds follows the start, a room has an interval exactly while
-- its timer is running or has given its warning.
pub run-has_interval :
    (hs : List Happening) (room : String)
    → has room (run init hs).timer_intervals ≡ is_counting (get room (run init hs).timer_store)
run-has_interval hs room = (run-IsValid init hs init-IsValid).armed room
