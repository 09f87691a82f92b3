-- ===== src/Timer.antt =====
-- mcp/tools/timer.tool.ts: the meeting timer of each room.
pub mod Command
pub mod Intervals
pub mod Invariant
pub mod Ticks
pub mod Histories
pub mod Countdown
pub mod Endings
pub mod Commands
mod Tests
use aura_new_live_server.Prelude.{
  ℕ, suc, ◌+◌, ◌-◌, ◌*◌, ◌/◌, ◌%◌, String, Bool, true, false, ◌&&◌, ◌||◌, Option, none, some, List,
  [], ◌∷◌, ◌++◌, leb, ◌==◌, if◌then◌else◌, nat_eq, string_eq, Table, get, has, set, delete,
}

-- `TimerState`
pub data TimerState : Type 0 where
  idle running paused warning ended : TimerState

-- `TimerData`; minutes, seconds and milliseconds are natural numbers.
pub record TimerData : Type 0 where
  pub room_id : String
  pub target_minutes : ℕ
  pub warning_minutes : ℕ
  pub remaining_seconds : ℕ
  pub timer_state : TimerState
  pub started_at : ℕ
  pub end_time : ℕ

pub data Event : Type 0 where
  on_warning on_ended : Event

-- What `notifyCallback` receives.
pub record Notice : Type 0 where
  pub room : String
  pub event : Event
  pub timer : TimerData

-- The module's variables, and the runtime's list of live intervals by handle, each with the room
-- that its callback closes over. `sent` is what the callback has been called with, oldest first.
pub record Timers : Type 0 where
  pub timer_store : Table String TimerData
  pub timer_intervals : Table String ℕ
  pub live : Table ℕ String
  pub next_handle : ℕ
  pub notify_callback : Bool
  pub sent : List Notice

abbrev pub init : Timers
init = record {
  timer_store = [];
  timer_intervals = [];
  live = [];
  next_handle = 0;
  notify_callback = false;
  sent = [];
}

-- `setTimerNotifyCallback`
unfoldable pub set_timer_notify_callback : Timers → Timers
set_timer_notify_callback s = record s { notify_callback = true }

-- `notifyCallback?.(roomId, event, { ...timer })`
notify : String → Event → TimerData → Timers → Timers
notify room event t s =
    if s.notify_callback
    then record s { sent = s.sent ++ record { room = room; event = event; timer = t } ∷ [] }
    else s

abbrev pub put_timer : String → TimerData → Timers → Timers
put_timer room t s = record s { timer_store = set room t s.timer_store }

clear_interval : String → Option ℕ → Timers → Timers
clear_interval room none s = s
clear_interval room (some handle) s = record s {
  timer_intervals = delete room s.timer_intervals;
  live = delete handle s.live;
}

-- `stopTimerInterval`
unfoldable pub stop_timer_interval : String → Timers → Timers
unfolding clear_interval
stop_timer_interval room s = clear_interval room (get room s.timer_intervals) s

-- `timerIntervals.set(roomId, setInterval(…))`
unfoldable pub start_interval : String → Timers → Timers
start_interval room s = record s {
  timer_intervals = set room s.next_handle s.timer_intervals;
  live = set s.next_handle room s.live;
  next_handle = suc s.next_handle;
}

-- States in which the interval goes on counting.
abbrev pub counts : TimerState → Bool
counts running = true
counts warning = true
counts _ = false

abbrev pub is_running : TimerState → Bool
is_running running = true
is_running _ = false

abbrev pub is_paused : TimerState → Bool
is_paused paused = true
is_paused _ = false

-- The warning test of a round. The source tests `remainingSeconds === warningThreshold` after
-- `remainingSeconds--`, which may leave -1, so the test stands on the value before.
abbrev reaches_warning : TimerData → Bool
reaches_warning t = (t.remaining_seconds == t.warning_minutes * 60 + 1) && is_running t.timer_state

abbrev lower : TimerData → TimerData
lower t = record t { remaining_seconds = t.remaining_seconds - 1 }

abbrev warned : TimerData → TimerData
warned t = record t { remaining_seconds = t.remaining_seconds - 1; timer_state = warning }

abbrev over : TimerData → TimerData
over t = record t { remaining_seconds = 0; timer_state = ended }

-- `remainingSeconds--` and the warning test: the timer and the warning's call.
warn_step : String → TimerData → Timers → TimerData × Timers
unfolding notify
warn_step room t s =
    if reaches_warning t then (warned t, notify room on_warning (warned t) s) else (lower t, s)

-- The end test, on the value `before` that the round began with: after `--` it is 0 or less.
end_step : String → ℕ → TimerData → Timers → TimerData × Timers
unfolding notify stop_timer_interval
end_step room before t s =
    if leb before 1
    then (over t, notify room on_ended (over t) (stop_timer_interval room s))
    else (t, s)

count_down : String → TimerData → Timers → Timers
unfolding warn_step end_step
count_down room t s =
    let (t', s') = warn_step room t s in
    let (t'', s'') = end_step room t.remaining_seconds t' s' in put_timer room t'' s''

on_timer : String → Option TimerData → Timers → Timers
unfolding stop_timer_interval count_down
on_timer room none s = stop_timer_interval room s
on_timer room (some t) s =
    if counts t.timer_state then count_down room t s else stop_timer_interval room s

-- The callback that `startTimer`, `resumeTimer` and `extendTimer` give to `setInterval`.
unfoldable pub tick : String → Timers → Timers
unfolding on_timer
tick room s = on_timer room (get room s.timer_store) s

-- The runtime runs the callback of a live interval; a cleared handle does nothing.
unfoldable pub fire : ℕ → Timers → Timers
fire handle s = elim (get handle s.live) [ none ↦ s | some room ↦ tick room s ]

-- `startTimer`
unfoldable pub start_timer : String → ℕ → ℕ → ℕ → Timers → TimerData × Timers
start_timer room target warning_at now s =
    let t : TimerData = record {
      room_id = room;
      target_minutes = target;
      warning_minutes = warning_at;
      remaining_seconds = target * 60;
      timer_state = running;
      started_at = now;
      end_time = now + target * 60 * 1000;
    } in
    (t, start_interval room (put_timer room t (stop_timer_interval room s)))

paused_timer : String → Option TimerData → Timers → Option TimerData × Timers
paused_timer room none s = (none, s)
paused_timer room (some t) s =
    let t' = record t { timer_state = paused } in
    (some t', put_timer room t' (stop_timer_interval room s))

-- `pauseTimer`
unfoldable pub pause_timer : String → Timers → Option TimerData × Timers
unfolding paused_timer
pause_timer room s = paused_timer room (get room s.timer_store) s

resumed_timer : String → ℕ → Option TimerData → Timers → Option TimerData × Timers
resumed_timer room now none s = (none, s)
resumed_timer room now (some t) s =
    let t' = record t { timer_state = running; end_time = now + t.remaining_seconds * 1000 } in
    if is_paused t.timer_state
    then (some t', start_interval room (put_timer room t' s))
    else (none, s)

-- `resumeTimer`
unfoldable pub resume_timer : String → ℕ → Timers → Option TimerData × Timers
unfolding resumed_timer
resume_timer room now s = resumed_timer room now (get room s.timer_store) s

-- The tests of `extendTimer`: ended or warning.
abbrev pub restarts : TimerState → Bool
restarts ended = true
restarts warning = true
restarts _ = false

extended_timer : String → ℕ → ℕ → Option TimerData → Timers → Option TimerData × Timers
extended_timer room minutes now none s = (none, s)
extended_timer room minutes now (some t) s =
    let longer = record t {
      remaining_seconds = t.remaining_seconds + minutes * 60;
      target_minutes = t.target_minutes + minutes;
    } in
    let again = record longer {
      timer_state = running;
      end_time = now + longer.remaining_seconds * 1000;
    } in
    if restarts t.timer_state
    then (
      some again,
      put_timer room again (if has room s.timer_intervals then s else start_interval room s),
    )
    else (some longer, put_timer room longer s)

-- `extendTimer`
unfoldable pub extend_timer : String → ℕ → ℕ → Timers → Option TimerData × Timers
unfolding extended_timer
extend_timer room minutes now s = extended_timer room minutes now (get room s.timer_store) s

-- `stopTimer`
unfoldable pub stop_timer : String → Timers → Option TimerData × Timers
stop_timer room s =
    let s' = stop_timer_interval room s in
    (get room s.timer_store, record s' { timer_store = delete room s'.timer_store })

-- `getTimerStatus`
unfoldable pub get_timer_status : String → Timers → Option TimerData
get_timer_status room s = get room s.timer_store
