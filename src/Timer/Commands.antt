-- ===== src/Timer/Commands.antt =====
-- mcp/tools/timer.tool.ts: what the commands do, and what they leave alone.
use aura_new_live_server.Prelude.{
  ℕ, zero, suc, ◌+◌, ◌-◌, ◌*◌, ◌<◌, ◌≡◌, refl, ◌∙◌, ap, inl, inr, String, true, false, Option, none,
  some, arith, ◌==◌, nat_eq, string_eq, Bool-cases, Option-cases, get, has, get-delete,
  get-set_self, get-set_ne,
}
use aura_new_live_server.Timer.{
  running, paused, TimerData, Timers, counts, is_paused, restarts, put_timer, stop_timer_interval,
  start_interval, tick, start_timer, pause_timer, resume_timer, extend_timer, stop_timer, on_timer,
  paused_timer, resumed_timer, extended_timer,
}
use aura_new_live_server.Timer.Command.{Options, ToolError, err, execute, dispatch, dispatch_rule}
use aura_new_live_server.Timer.Intervals.{get-stop_timer_interval, stop_timer_interval-timer_store}
use aura_new_live_server.Timer.Countdown.{rounds, minus}
use aura_new_live_server.Timer.Endings.{start_timer-rounds}

-- The rounds of a room whose timer is paused leave its timer.
rounds_paused :
    (n : ℕ) (room : String) (t : TimerData) (s : Timers)
    → get room s.timer_store ≡ some t
    → t.timer_state ≡ paused
    → get room (rounds n room s).timer_store ≡ some t
unfolding rounds tick on_timer
rounds_paused zero room t s found rest = found
rounds_paused (suc n) room t s found rest =
    let resting : counts t.timer_state ≡ false = rw rest refl in
    rounds_paused n room t (tick room s)
      (rw (found, on_timer) (rw resting (rw (stop_timer_interval-timer_store room s) found))) rest

-- A timer that is paused, left for any number of rounds and then resumed runs with the seconds that
-- it had, and its end is set that far after the time of resuming.
pub pause_timer-resume_timer :
    (room : String) (t : TimerData) (n later : ℕ) (s : Timers)
    → get room s.timer_store ≡ some t
    → get room (resume_timer room later (rounds n room (pause_timer room s).1)).1.timer_store
      ≡ some (record t { timer_state = running; end_time = later + t.remaining_seconds * 1000 })
unfolding resume_timer pause_timer start_interval
pause_timer-resume_timer room t n later s found =
    let t' = record t { timer_state = paused } in
    let held =
      rounds_paused n room t' (put_timer room t' (stop_timer_interval room s))
        (get-set_self room t' _) refl in
    rw (found, paused_timer) (rw (held, resumed_timer) (get-set_self room _ _))

extend_running :
    (room : String) (t : TimerData) (minutes later : ℕ) (s : Timers)
    → get room s.timer_store ≡ some t
    → t.timer_state ≡ running
    → get room (extend_timer room minutes later s).1.timer_store
      ≡ some (record t {
        remaining_seconds = t.remaining_seconds + minutes * 60;
        target_minutes = t.target_minutes + minutes;
      })
unfolding extend_timer
extend_running room t minutes later s found on =
    let plain : restarts t.timer_state ≡ false = rw on refl in
    rw (found, extended_timer) (rw plain (get-set_self room _ _))

-- A timer that is started with a callback registered and a warning time of at least one minute and
-- extended after a number of rounds before its warning is due has the added time in its seconds
-- left and in its length, but its end time is still that of the start.
pub start_timer-extend_timer :
    (room : String) (target warning_at now n minutes later : ℕ) (s : Timers)
    → s.notify_callback ≡ true
    → 0 < warning_at
    → n < (target - warning_at) * 60
    → let (t, s') = start_timer room target warning_at now s in
      get room (extend_timer room minutes later (rounds n room s')).1.timer_store
      ≡ some (record t {
        target_minutes = target + minutes;
        remaining_seconds = target * 60 - n + minutes * 60;
        end_time = now + target * 60 * 1000;
      })
unfolding start_timer
start_timer-extend_timer room target warning_at now n minutes later s listening some_warning
      before =
    let (t, s') = start_timer room target warning_at now s in
    extend_running room (minus t n) minutes later (rounds n room s')
      (start_timer-rounds room target warning_at now n s listening some_warning before).0 refl

-- The timer and the interval of a room.
abbrev SameRoom : String → Timers → Timers → Type 0
SameRoom r s s' =
    (get r s'.timer_store ≡ get r s.timer_store)
    × (get r s'.timer_intervals ≡ get r s.timer_intervals)

module _ (room r : String) (other : (room == r) ≡ false) where
  stop_timer_interval-SameRoom : (s : Timers) → SameRoom r s (stop_timer_interval room s)
  stop_timer_interval-SameRoom s = (
    ap (get r) (stop_timer_interval-timer_store room s),
    get-stop_timer_interval room r s ∙ rw other refl,
  )

  put_timer-SameRoom :
      (t : TimerData) (s s' : Timers) → SameRoom r s s' → SameRoom r s (put_timer room t s')
  put_timer-SameRoom t s s' same = (get-set_ne room r t s'.timer_store other ∙ same.0, same.1)

  start_interval-SameRoom :
      (s s' : Timers) → SameRoom r s s' → SameRoom r s (start_interval room s')
  unfolding start_interval
  start_interval-SameRoom s s' same =
      (same.0, get-set_ne room r s'.next_handle s'.timer_intervals other ∙ same.1)

  start_timer-SameRoom :
      (target warning_at now : ℕ) (s : Timers)
      → SameRoom r s (start_timer room target warning_at now s).1
  unfolding start_timer
  start_timer-SameRoom target warning_at now s =
      start_interval-SameRoom s _
        (put_timer-SameRoom _ s (stop_timer_interval room s) (stop_timer_interval-SameRoom s))

  pause_timer-SameRoom : (s : Timers) → SameRoom r s (pause_timer room s).1
  unfolding pause_timer
  pause_timer-SameRoom s = elim (Option-cases (get room s.timer_store)) [
    | inl missing ↦ rw (missing, paused_timer) (refl, refl)
    | inr (t, found) ↦
        rw (found, paused_timer)
          (put_timer-SameRoom _ s (stop_timer_interval room s) (stop_timer_interval-SameRoom s))
  ]

  resume_timer-SameRoom : (now : ℕ) (s : Timers) → SameRoom r s (resume_timer room now s).1
  unfolding resume_timer
  resume_timer-SameRoom now s = elim (Option-cases (get room s.timer_store)) [
    | inl missing ↦ rw (missing, resumed_timer) (refl, refl)
    | inr (t, found) ↦ elim (Bool-cases (is_paused t.timer_state)) [
      | inl stopped ↦
          rw (found, resumed_timer)
            (rw stopped (start_interval-SameRoom s _ (put_timer-SameRoom _ s s (refl, refl))))
      | inr not_paused ↦ rw (found, resumed_timer) (rw not_paused (refl, refl))
    ]
  ]

  extend_timer-SameRoom :
      (minutes now : ℕ) (s : Timers) → SameRoom r s (extend_timer room minutes now s).1
  unfolding extend_timer
  extend_timer-SameRoom minutes now s = elim (Option-cases (get room s.timer_store)) [
    | inl missing ↦ rw (missing, extended_timer) (refl, refl)
    | inr (t, found) ↦ elim (Bool-cases (restarts t.timer_state)) [
      | inl again ↦ elim (Bool-cases (has room s.timer_intervals)) [
        | inl have ↦
            rw (found, extended_timer) (rw (again, have) (put_timer-SameRoom _ s s (refl, refl)))
        | inr lack ↦
            rw (found, extended_timer)
              (rw (again, lack)
                (put_timer-SameRoom _ s (start_interval room s)
                  (start_interval-SameRoom s s (refl, refl))))
      ]
      | inr plain ↦ rw (found, extended_timer) (rw plain (put_timer-SameRoom _ s s (refl, refl)))
    ]
  ]

  stop_timer-SameRoom : (s : Timers) → SameRoom r s (stop_timer room s).1
  unfolding stop_timer
  stop_timer-SameRoom s =
      let same = stop_timer_interval-SameRoom s in
      ground (arith, same.0, same.1, get-delete room r (stop_timer_interval room s).timer_store)

-- A command for one room, valid or not, leaves the timer and the interval of every other room.
pub execute-SameRoom :
    (room r : String) (o : Options) (now : ℕ) (s : Timers)
    → (room == r) ≡ false
    → (get r (execute (some room) o now s).1.timer_store ≡ get r s.timer_store)
      × (get r (execute (some room) o now s).1.timer_intervals ≡ get r s.timer_intervals)
unfolding execute
execute-SameRoom room r o now s other = elim (Bool-cases (room == "")) [
  | inl blank ↦ rw blank (refl, refl)
  | inr named ↦ rw named (
      dispatch_rule (SameRoom r s) room o now s (λ t w. start_timer-SameRoom room r other t w now s)
        (pause_timer-SameRoom room r other s) (resume_timer-SameRoom room r other now s)
        (λ m. extend_timer-SameRoom room r other m now s) (stop_timer-SameRoom room r other s)
        (refl, refl))
]

-- A command that is refused changes nothing.
pub execute_err :
    (room : Option String) (o : Options) (now : ℕ) (s : Timers) (e : ToolError)
    → (execute room o now s).0 ≡ err e
    → (execute room o now s).1 ≡ s
unfolding execute dispatch
execute_err none o now s e refused = refl
execute_err (some room) o now s e refused = ground arith
