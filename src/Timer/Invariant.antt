-- ===== src/Timer/Invariant.antt =====
-- mcp/tools/timer.tool.ts: the invariant of the timers and the operations.
use aura_new_live_server.Prelude.{
  ℕ, ◌≡◌, refl, sym, ◌∙◌, inl, inr, String, true, false, none, arith, ◌==◌, nat_eq, string_eq,
  Bool-cases, Option-cases, ==_refl, ==_eq, get, has, set, get-set, get-delete,
}
use aura_new_live_server.Timer.{
  TimerData, Timers, counts, init, put_timer, stop_timer_interval, start_interval, start_timer,
  pause_timer, resume_timer, extend_timer, stop_timer, paused_timer, resumed_timer, extended_timer,
  is_paused, restarts,
}
use aura_new_live_server.Timer.Intervals.{
  is_counting, IsWired, stop_timer_interval-IsWired, start_interval-IsWired,
  get-stop_timer_interval, stop_timer_interval-timer_store, get-start_interval,
}

pub record IsValid (s : Timers) : Type 0 where
  pub wired : IsWired s
  pub armed : (r : String) → has r s.timer_intervals ≡ is_counting (get r s.timer_store)

pub init-IsValid : IsValid init
unfolding get
init-IsValid = record {
  wired = record { known = λ h r e. cc; alive = λ h r e. cc; fresh = λ h r e. cc };
  armed = λ r. refl;
}

-- The interval part of the invariant reads three fields.
pub IsWired-same :
    (s s' : Timers)
    → s'.live ≡ s.live
    → s'.timer_intervals ≡ s.timer_intervals
    → s'.next_handle ≡ s.next_handle
    → IsWired s
    → IsWired s'
IsWired-same s s' p q n w = record {
  known = λ h r e. rw q (w.known h r (rw p at e));
  alive = λ h r e. rw p (w.alive h r (rw q at e));
  fresh = λ h r e. rw n (w.fresh h r (rw p at e));
}

put_timer-IsWired :
    (room : String) (t : TimerData) (s : Timers) → IsWired s → IsWired (put_timer room t s)
put_timer-IsWired room t s w = IsWired-same s _ refl refl refl w

-- Storing a timer that counts exactly if its room has an interval.
put_timer-armed :
    (room : String) (t : TimerData) (s : Timers)
    → has room s.timer_intervals ≡ counts t.timer_state
    → ((r : String)
        → (room == r) ≡ false
        → has r s.timer_intervals ≡ is_counting (get r s.timer_store))
    → (r : String) → has r s.timer_intervals ≡ is_counting (get r (set room t s.timer_store))
put_timer-armed room t s here others r = elim (Bool-cases (room == r)) [
  | inl same ↦ rw (get-set room r t s.timer_store, same) (rw (← ==_eq room r same) here)
  | inr other ↦ rw (get-set room r t s.timer_store, other) (others r other)
]

-- Stopping the interval of a room leaves the other rooms armed.
stop_timer_interval-armed :
    (room : String) (s : Timers)
    → IsValid s
    → (r : String) → (room == r) ≡ false
    → has r (stop_timer_interval room s).timer_intervals
      ≡ is_counting (get r (stop_timer_interval room s).timer_store)
stop_timer_interval-armed room s v r other =
    ground
      (arith, get-stop_timer_interval room r s, stop_timer_interval-timer_store room s, v.armed r)

stop_timer_interval-none :
    (room : String) (s : Timers) → get room (stop_timer_interval room s).timer_intervals ≡ none
stop_timer_interval-none room s = rw (get-stop_timer_interval room room s) (rw (==_refl room))

-- A counting timer is stored and its interval started.
begin-IsValid :
    (room : String) (t : TimerData) (s : Timers)
    → get room s.timer_intervals ≡ none
    → counts t.timer_state ≡ true
    → IsWired s
    → ((r : String)
        → (room == r) ≡ false
        → has r s.timer_intervals ≡ is_counting (get r s.timer_store))
    → IsValid (put_timer room t (start_interval room s))
unfolding start_interval
begin-IsValid room t s empty counting w others = record {
  wired = put_timer-IsWired room t _ (start_interval-IsWired room s empty w);
  armed =
      put_timer-armed room t (start_interval room s)
        (ground (arith, get-start_interval room room s, ==_refl room))
        (λ r other. ground (arith, get-start_interval room r s, others r other));
}

pub start_timer-IsValid :
    (room : String) (target warning_at now : ℕ) (s : Timers)
    → IsValid s
    → IsValid (start_timer room target warning_at now s).1
unfolding start_timer start_interval
start_timer-IsValid room target warning_at now s v =
    begin-IsValid room (start_timer room target warning_at now s).0 (stop_timer_interval room s)
      (stop_timer_interval-none room s) refl (stop_timer_interval-IsWired room s v.wired)
      (stop_timer_interval-armed room s v)

-- A timer that does not count is stored and its interval stopped.
pub rest-IsValid :
    (room : String) (t : TimerData) (s : Timers)
    → counts t.timer_state ≡ false
    → IsValid s
    → IsValid (put_timer room t (stop_timer_interval room s))
rest-IsValid room t s resting v = record {
  wired =
      put_timer-IsWired room t (stop_timer_interval room s)
        (stop_timer_interval-IsWired room s v.wired);
  armed =
      put_timer-armed room t (stop_timer_interval room s)
        (rw (stop_timer_interval-none room s, resting) refl) (stop_timer_interval-armed room s v);
}

-- A timer is stored that counts as the one before did.
pub swap-IsValid :
    (room : String) (t : TimerData) (s : Timers)
    → counts t.timer_state ≡ is_counting (get room s.timer_store)
    → IsValid s
    → IsValid (put_timer room t s)
swap-IsValid room t s same v = record {
  wired = put_timer-IsWired room t s v.wired;
  armed = put_timer-armed room t s (v.armed room ∙ sym same) (λ r other. v.armed r);
}

pub pause_timer-IsValid : (room : String) (s : Timers) → IsValid s → IsValid (pause_timer room s).1
unfolding pause_timer
pause_timer-IsValid room s v = elim (Option-cases (get room s.timer_store)) [
  | inl missing ↦ rw (missing, paused_timer) v
  | inr (t, found) ↦ rw (found, paused_timer) (rest-IsValid room _ s refl v)
]

pub resume_timer-IsValid :
    (room : String) (now : ℕ) (s : Timers) → IsValid s → IsValid (resume_timer room now s).1
unfolding resume_timer start_interval
resume_timer-IsValid room now s v = elim (Option-cases (get room s.timer_store)) [
  | inl missing ↦ rw (missing, resumed_timer) v
  | inr (t, found) ↦ elim (Bool-cases (is_paused t.timer_state)) [
    | inl stopped ↦
        rw (found, resumed_timer)
          (rw stopped (
            begin-IsValid room _ s (ground (arith, v.armed room)) refl v.wired
              (λ r other. v.armed r)))
    | inr other ↦ rw (found, resumed_timer) (rw other v)
  ]
]

pub extend_timer-IsValid :
    (room : String) (minutes now : ℕ) (s : Timers)
    → IsValid s
    → IsValid (extend_timer room minutes now s).1
unfolding extend_timer
extend_timer-IsValid room minutes now s v = elim (Option-cases (get room s.timer_store)) [
  | inl missing ↦ rw (missing, extended_timer) v
  | inr (t, found) ↦ elim (Bool-cases (restarts t.timer_state)) [
    | inl again ↦ elim (Bool-cases (has room s.timer_intervals)) [
      | inl have ↦
          rw (found, extended_timer)
            (rw (again, have) (swap-IsValid room _ s (sym have ∙ v.armed room) v))
      | inr lack ↦
          rw (found, extended_timer)
            (rw (again, lack)
              (begin-IsValid room _ s (ground (arith)) refl v.wired (λ r other. v.armed r)))
    ]
    | inr other ↦ rw (found, extended_timer) (rw other (swap-IsValid room _ s (rw found) v))
  ]
]

-- Stopping the interval of a room whose timer does not count.
pub halt-IsValid :
    (room : String) (s : Timers)
    → is_counting (get room s.timer_store) ≡ false
    → IsValid s
    → IsValid (stop_timer_interval room s)
halt-IsValid room s resting v = record {
  wired = stop_timer_interval-IsWired room s v.wired;
  armed = λ r. ground (
    arith,
    get-stop_timer_interval room r s,
    stop_timer_interval-timer_store room s,
    v.armed r,
    string_eq.equals_iff room r,
  );
}

pub stop_timer-IsValid : (room : String) (s : Timers) → IsValid s → IsValid (stop_timer room s).1
unfolding stop_timer
stop_timer-IsValid room s v = record {
  wired =
      IsWired-same (stop_timer_interval room s) _ refl refl refl
        (stop_timer_interval-IsWired room s v.wired);
  armed = λ r. ground (
    arith,
    get-stop_timer_interval room r s,
    stop_timer_interval-timer_store room s,
    v.armed r,
    get-delete room r (stop_timer_interval room s).timer_store,
  );
}
