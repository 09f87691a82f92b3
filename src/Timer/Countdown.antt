-- ===== src/Timer/Countdown.antt =====
-- mcp/tools/timer.tool.ts: the rounds of one timer, what it shows and whom it tells.
use aura_new_live_server.Prelude.{
  ℕ, zero, suc, ◌+◌, ◌-◌, ◌*◌, ◌≤◌, ◌<◌, ◌≡◌, refl, ◌∙◌, ◌⊎◌, inl, inr, String, true, false, some,
  List, [], ◌∷◌, ◌++◌, arith, nat_eq, string_eq, get, get-set_self, leb,
}
use aura_new_live_server.Timer.{
  running, warning, TimerData, Timers, Notice, Event, on_warning, on_ended, counts, notify,
  put_timer, stop_timer_interval, start_interval, tick, start_timer, on_timer, count_down,
  warn_step, end_step, lower, warned, over, reaches_warning, is_running,
}
use aura_new_live_server.Timer.Intervals.{stop_timer_interval-sent}

-- `n` rounds of the room's interval.
unfoldable pub rounds : ℕ → String → Timers → Timers
rounds zero room s = s
rounds (suc n) room s = rounds n room (tick room s)

rounds-add :
    (m n : ℕ) (room : String) (s : Timers) → rounds (m + n) room s ≡ rounds n room (rounds m room s)
unfolding rounds
rounds-add zero n room s = rw (let e : zero + n ≡ n = omega arith in e)
rounds-add (suc m) n room s =
    rw (let e : suc m + n ≡ suc (m + n) = omega arith in e) (rounds-add m n room (tick room s))

pub rounds-split :
    (k m n : ℕ) (room : String) (s : Timers)
    → k ≡ m + n
    → rounds k room s ≡ rounds n room (rounds m room s)
rounds-split k m n room s e = rw e (rounds-add m n room s)

-- The room's timer, what has been sent, and that a callback is registered.
pub record Shows (room : String) (t : TimerData) (sent : List Notice) (s : Timers) : Type 0 where
  pub stored : get room s.timer_store ≡ some t
  pub told : s.sent ≡ sent
  pub listening : s.notify_callback ≡ true

Shows-put_timer :
    (room : String) (t : TimerData) (s : Timers) (sent : List Notice)
    → s.sent ≡ sent
    → s.notify_callback ≡ true
    → Shows room t sent (put_timer room t s)
Shows-put_timer room t s sent told listening = record {
  stored = get-set_self room t s.timer_store;
  told = told;
  listening = listening;
}

Shows-notify :
    (room : String) (e : Event) (t : TimerData) (s : Timers) (sent : List Notice)
    → s.sent ≡ sent
    → s.notify_callback ≡ true
    → Shows room t
        (sent ++ record { room = room; event = e; timer = t } ∷ [])
        (put_timer room t (notify room e t s))
unfolding notify
Shows-notify room e t s sent told listening =
    Shows-put_timer room t (notify room e t s) _ (ground arith) (ground arith)

module _ (room : String) (t : TimerData) (sent : List Notice) (s : Timers)
    (now : Shows room t sent s) (counting : counts t.timer_state ≡ true) where
  tick_quiet :
      reaches_warning t ≡ false → 1 < t.remaining_seconds → Shows room (lower t) sent (tick room s)
  unfolding tick on_timer count_down warn_step end_step
  tick_quiet quiet more =
      let high : leb t.remaining_seconds 1 ≡ false = ground arith in
      rw (now.stored, on_timer)
        (rw (counting, quiet)
          (rw high (Shows-put_timer room (lower t) s sent now.told now.listening)))

  tick_warns :
      reaches_warning t ≡ true
      → 1 < t.remaining_seconds
      → Shows room
          (warned t)
          (sent ++ record { room = room; event = on_warning; timer = warned t } ∷ [])
          (tick room s)
  unfolding tick on_timer count_down warn_step end_step
  tick_warns warns more =
      let high : leb t.remaining_seconds 1 ≡ false = ground arith in
      rw (now.stored, on_timer)
        (rw (counting, warns)
          (rw high (Shows-notify room on_warning (warned t) s sent now.told now.listening)))

  tick_ends :
      reaches_warning t ≡ false
      → t.remaining_seconds ≡ 1
      → Shows room
          (over t)
          (sent ++ record { room = room; event = on_ended; timer = over t } ∷ [])
          (tick room s)
  unfolding tick on_timer count_down warn_step end_step
  tick_ends quiet last =
      let low : leb t.remaining_seconds 1 ≡ true = ground arith in
      let stopped = stop_timer_interval-sent room s in
      rw (now.stored, on_timer)
        (rw (counting, quiet)
          (rw low (
            Shows-notify room on_ended (over t) (stop_timer_interval room s) sent
              (stopped.0 ∙ now.told) (stopped.1 ∙ now.listening))))

-- The timer after `n` rounds that reach neither the warning nor the end.
abbrev pub minus : TimerData → ℕ → TimerData
minus t n = record t { remaining_seconds = t.remaining_seconds - n }

-- No warning falls in the next `n` rounds: given already, further off, or past.
abbrev IsQuiet : TimerData → ℕ → Type 0
IsQuiet t n =
    (is_running t.timer_state ≡ false)
    ⊎ ((t.warning_minutes * 60 + n < t.remaining_seconds)
        ⊎ (t.remaining_seconds ≤ t.warning_minutes * 60))

pub rounds_quiet :
    (n : ℕ) (room : String) (t : TimerData) (sent : List Notice) (s : Timers)
    → Shows room t sent s
    → counts t.timer_state ≡ true
    → n < t.remaining_seconds
    → IsQuiet t n
    → Shows room (minus t n) sent (rounds n room s)
unfolding rounds
rounds_quiet zero room t sent s now counting less quiet =
    rw (let e : t.remaining_seconds - zero ≡ t.remaining_seconds = omega arith in e) now
rounds_quiet (suc n) room t sent s now counting less quiet =
    let still : reaches_warning t ≡ false = ground arith in
    let next = tick_quiet room t sent s now counting still (omega arith) in
    rw (let e : t.remaining_seconds - suc n ≡ t.remaining_seconds - 1 - n = omega arith in e)
      (rounds_quiet n room (lower t) sent (tick room s) next counting (omega arith) (ground arith))

abbrev pub at_warning : TimerData → TimerData
at_warning t = record t { remaining_seconds = t.warning_minutes * 60; timer_state = warning }

abbrev pub ended_notice : String → TimerData → Notice
ended_notice room t = record { room = room; event = on_ended; timer = over t }

abbrev pub warning_notice : String → TimerData → Notice
warning_notice room t = record { room = room; event = on_warning; timer = at_warning t }

-- The rounds up to and with the one that gives the warning.
pub rounds_warns :
    (room : String) (t : TimerData) (sent : List Notice) (s : Timers)
    → Shows room t sent s
    → t.timer_state ≡ running
    → 0 < t.warning_minutes
    → t.warning_minutes * 60 < t.remaining_seconds
    → Shows room
        (at_warning t)
        (sent ++ warning_notice room t ∷ [])
        (rounds (t.remaining_seconds - t.warning_minutes * 60) room s)
unfolding rounds
rounds_warns room t sent s now on some_warning below =
    let n = t.remaining_seconds - t.warning_minutes * 60 - 1 in
    let counting : counts t.timer_state ≡ true = rw on refl in
    let here = rounds_quiet n room t sent s now counting (omega arith) (inr (inl (omega arith))) in
    let e : t.remaining_seconds - t.warning_minutes * 60 ≡ n + 1 = omega arith in
    let left : t.remaining_seconds - n - 1 ≡ t.warning_minutes * 60 = omega arith in
    let last =
      tick_warns room (minus t n) sent (rounds n room s) here counting (ground arith)
        (omega arith) in
    rw (e, rounds-add n 1 room s) (rw left at last)

-- The rounds up to and with the last one.
pub rounds_ends :
    (m : ℕ) (room : String) (t : TimerData) (sent : List Notice) (s : Timers)
    → m ≡ t.remaining_seconds
    → Shows room t sent s
    → counts t.timer_state ≡ true
    → 0 < t.remaining_seconds
    → IsQuiet t t.remaining_seconds
    → Shows room (over t) (sent ++ ended_notice room t ∷ []) (rounds m room s)
unfolding rounds
rounds_ends m room t sent s same now counting some_left quiet =
    let n = t.remaining_seconds - 1 in
    let here = rounds_quiet n room t sent s now counting (omega arith) (ground arith) in
    let e : m ≡ n + 1 = omega arith in
    let last =
      tick_ends room (minus t n) sent (rounds n room s) here counting (ground arith)
        (omega arith) in
    rw (e, rounds-add n 1 room s) last

pub start_timer-Shows :
    (room : String) (target warning_at now : ℕ) (s : Timers)
    → s.notify_callback ≡ true
    → Shows room
        (start_timer room target warning_at now s).0
        s.sent
        (start_timer room target warning_at now s).1
unfolding start_timer start_interval
start_timer-Shows room target warning_at now s listening =
    let stopped = stop_timer_interval-sent room s in
    record {
      stored = get-set_self room _ (stop_timer_interval room s).timer_store;
      told = stopped.0;
      listening = stopped.1 ∙ listening;
    }
