-- ===== src/Timer/Ticks.antt =====
-- mcp/tools/timer.tool.ts: the invariant of the timers and the rounds of the runtime.
use aura_new_live_server.Prelude.{
  ℕ, ◌≡◌, refl, inl, inr, String, true, some, arith, nat_eq, string_eq, Bool-cases, Option-cases,
  leb, get,
}
use aura_new_live_server.Timer.{
  TimerData, Timers, counts, notify, put_timer, set_timer_notify_callback, tick, fire, on_timer,
  count_down, warn_step, end_step, Event, on_warning, on_ended, warned, over, reaches_warning,
}
use aura_new_live_server.Timer.Intervals.{is_counting}
use aura_new_live_server.Timer.Invariant.{
  IsValid, IsWired-same, rest-IsValid, swap-IsValid, halt-IsValid,
}

-- A notice changes nothing that the invariant reads.
notify-IsValid :
    (room : String) (e : Event) (t : TimerData) (s : Timers)
    → IsValid s
    → IsValid (notify room e t s)
unfolding notify
notify-IsValid room e t s v = elim (Bool-cases s.notify_callback) [
  | inl on ↦ simp on (record { wired = IsWired-same s _ refl refl refl v.wired; armed = v.armed })
  | inr off ↦ simp off v
]

notify-timer_store :
    (room : String) (e : Event) (t : TimerData) (s : Timers)
    → (notify room e t s).timer_store ≡ s.timer_store
unfolding notify
notify-timer_store room e t s = ground arith

put_timer-notify :
    (room r : String) (e : Event) (t u : TimerData) (s : Timers)
    → put_timer room u (notify r e t s) ≡ notify r e t (put_timer room u s)
unfolding notify
put_timer-notify room r e t u s = ground arith

end_step-IsValid :
    (room : String) (before : ℕ) (t : TimerData) (s : Timers)
    → counts t.timer_state ≡ is_counting (get room s.timer_store)
    → IsValid s
    → IsValid (put_timer room (end_step room before t s).0 (end_step room before t s).1)
unfolding end_step
end_step-IsValid room before t s same v = elim (Bool-cases (leb before 1)) [
  | inl over ↦
      rw over
        (rw put_timer-notify (notify-IsValid room on_ended _ _ (rest-IsValid room _ s refl v)))
  | inr more ↦ rw more (swap-IsValid room t s same v)
]

count_down-IsValid :
    (room : String) (t : TimerData) (s : Timers)
    → get room s.timer_store ≡ some t
    → counts t.timer_state ≡ true
    → IsValid s
    → IsValid (count_down room t s)
unfolding count_down warn_step
count_down-IsValid room t s found counting v = elim (Bool-cases (reaches_warning t)) [
  | inl warns ↦ rw warns (
      end_step-IsValid room t.remaining_seconds _ _
        (ground (arith, notify-timer_store room on_warning (warned t) s))
        (notify-IsValid room on_warning _ s v))
  | inr quiet ↦ rw quiet (end_step-IsValid room t.remaining_seconds _ s (rw found refl) v)
]

pub tick-IsValid : (room : String) (s : Timers) → IsValid s → IsValid (tick room s)
unfolding tick on_timer
tick-IsValid room s v = elim (Option-cases (get room s.timer_store)) [
  | inl missing ↦ rw (missing, on_timer) (halt-IsValid room s (rw missing refl) v)
  | inr (t, found) ↦ elim (Bool-cases (counts t.timer_state)) [
    | inl counting ↦
        rw (found, on_timer) (rw counting (count_down-IsValid room t s found counting v))
    | inr resting ↦ rw (found, on_timer) (rw resting (halt-IsValid room s (rw found resting) v))
  ]
]

pub fire-IsValid : (handle : ℕ) (s : Timers) → IsValid s → IsValid (fire handle s)
unfolding fire
fire-IsValid handle s v = elim (Option-cases (get handle s.live)) [
  | inl cleared ↦ rw (cleared, fire) v
  | inr (room, live) ↦ rw (live, fire) (tick-IsValid room s v)
]

pub set_timer_notify_callback-IsValid :
    (s : Timers) → IsValid s → IsValid (set_timer_notify_callback s)
unfolding set_timer_notify_callback
set_timer_notify_callback-IsValid s v = record {
  wired = IsWired-same s _ refl refl refl v.wired;
  armed = v.armed;
}
