-- ===== src/Sched/Tests.antt =====
-- Runs of the scheduler, the wait queues, the mutexes and the events.
use neftis.Base.{true, false, ◌≡◌, refl, [], ◌∷◌, arith}
use neftis.Sched.{
  ok, ◌>>=◌, schedule_on_tick, running, soft_wait, Returns, schedule, pause, resume, wake_up,
  scroll_next, task_atomic, defsched_set_state, sched_restore,
}
use neftis.Sched.WaitQueue.{sleep}
use neftis.Sched.Mutex.{Mutex, init_mutex, down_round, down_inside, up}
use neftis.Sched.Event.{Event, event_signal}
use neftis.Sched.Invariant.{IsSound, wake_up-IsSound}
use neftis.Sched.Turns.{Runs, ticks, ticks-Runs, put_off, pause-schedule-resume, wake_up-high}
use neftis.Sched.Sleep.{sleep-passes_over}
use neftis.Sched.Critical.{And}
use neftis.Sched.Waiting.{Woken}
use neftis.Sched.Signals.{event_signal-wakes_all, up-wakes_first}
use neftis.Sched.Samples.{three, three-IsSound, waiters, waiters-AreWaiting}
use neftis.Sched.Fifo.{put_all, pop_all, pop_all-put_all}
use neftis.Sched.Exclusion.{System, Reachable, start, next, down_step, owners, mutual_exclusion}

wake_up_example : Returns IsSound (wake_up 5 running false false 20 three)
wake_up_example = wake_up-IsSound three 5 running false false 20 three-IsSound refl refl refl

ticks_example : Returns (Runs 3 (3 ∷ 1 ∷ 2 ∷ [])) (ticks 2 three)
ticks_example = ticks-Runs three 3 (1 ∷ 2 ∷ []) [] three-IsSound refl refl refl

pause_example :
    ((pause three >>= schedule) ≡ ok (put_off three))
    × ((pause three >>= schedule_on_tick) ≡ ok (put_off three))
    × ((pause three >>= schedule >>= resume) ≡ schedule three)
pause_example = pause-schedule-resume three refl refl

wake_up-high_example :
    Returns
      (λ k'. (k'.runqueue ≡ 1 ∷ 2 ∷ 3 ∷ 5 ∷ []) × (k'.current ≡ 1))
      (wake_up 5 running false false 20 three)
wake_up-high_example =
    wake_up-high three 1 5 (2 ∷ 3 ∷ []) three-IsSound refl refl refl refl 20 (omega arith)

sleep_example :
    Returns
      (λ (wq', k').
        (k'.runqueue ≡ 3 ∷ 2 ∷ [])
        × (k'.current ≡ 3)
        × (k'.ts_state 1 ≡ soft_wait)
        × (wq'.tasks ≡ 7 ∷ 8 ∷ 1 ∷ []))
      (sleep true waiters three)
unfolding scroll_next
sleep_example =
    sleep-passes_over true waiters three 1 (2 ∷ 3 ∷ []) three-IsSound refl refl refl refl

abbrev bell : Event
bell = record { signaled = false; auto_reset = true; wq = waiters }

event_signal_example :
    Returns
      (And λ ev' k'. (ev'.wq.tasks ≡ []) × (ev'.signaled ≡ false) × Woken (7 ∷ 8 ∷ []) three k')
      (event_signal bell three)
event_signal_example = event_signal-wakes_all bell three three-IsSound refl waiters-AreWaiting refl

abbrev held : Mutex
held = record { locked = true; owner = 1; wq = waiters }

up_example :
    Returns
      (And λ m' k'. (m'.locked ≡ false) × (m'.wq.tasks ≡ 8 ∷ []) × Woken (7 ∷ []) three k')
      (up held three)
up_example = up-wakes_first held three 7 (8 ∷ []) three-IsSound refl refl refl refl refl refl

pop_all_example :
    pop_all 3 (put_all (9 ∷ []) waiters) ≡ (7 ∷ 8 ∷ 9 ∷ [], record { tasks = []; entries = 3 })
pop_all_example = pop_all-put_all waiters (9 ∷ [])

abbrev taken : System
taken = record {
  kernel = three;
  mutex = record { locked = true; owner = 1; wq = record { tasks = []; entries = 0 } };
  holders = 1 ∷ [];
}

taken-Reachable : Reachable taken
unfolding init_mutex down_round task_atomic pause defsched_set_state down_inside sched_restore
taken-Reachable = next _ taken (start three) (
    down_step (record { kernel = three; mutex = init_mutex false three; holders = [] }) true true
      (record { locked = true; owner = 1; wq = record { tasks = []; entries = 0 } }) three refl)

mutual_exclusion_example : (1 ∷ []) ≡ owners taken.mutex
mutual_exclusion_example = mutual_exclusion taken taken-Reachable
