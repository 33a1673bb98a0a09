-- ===== src/Sched/Event.antt =====
-- Events: microkernel/event.c.
use neftis.Base.{ℕ, Bool, true, false, not, ◌&&◌, [], if◌then◌else◌}
use neftis.Sched.{Kernel, Result, ok, ◌>>=◌, task_atomic}
use neftis.Sched.WaitQueue.{WaitQueue, signal_all_inside, sleep_inside}

pub record Event : Type 0 where
  pub signaled : Bool
  pub auto_reset : Bool
  pub wq : WaitQueue

-- WAKEUP_REASON_EVENT
abbrev pub reason_event : ℕ
reason_event = 20

abbrev pub init_event : Event
init_event = record {
  signaled = false;
  auto_reset = false;
  wq = record { tasks = []; entries = 0 };
}

unfoldable pub event_wait_inside : (alloc : Bool) → Event → Kernel → Result (Event × Kernel)
event_wait_inside alloc ev k =
    if ev.signaled
    then ok (ev, k)
    else (sleep_inside alloc ev.wq k >>= λ (wq, k'). ok (record ev { wq = wq }, k'))

unfoldable pub event_wait : (alloc : Bool) → Event → Kernel → Result (Event × Kernel)
event_wait alloc ev = task_atomic (event_wait_inside alloc ev)

-- An event with automatic reset wakes all its waiters and is not set.
unfoldable pub event_signal_inside : Event → Kernel → Result (Event × Kernel)
event_signal_inside ev k =
    let set : Event = record ev { signaled = if ev.auto_reset then ev.signaled else true } in
    if ev.signaled && not ev.auto_reset
    then ok (ev, k)
    else (signal_all_inside reason_event ev.wq k >>= λ (wq, k'). ok (record set { wq = wq }, k'))

unfoldable pub event_signal : Event → Kernel → Result (Event × Kernel)
event_signal ev = task_atomic (event_signal_inside ev)

unfoldable pub event_clear : Event → Kernel → Result (Event × Kernel)
event_clear ev = task_atomic λ k. ok (record ev { signaled = false }, k)

unfoldable pub event_set_auto_reset : Bool → Event → Kernel → Result (Event × Kernel)
event_set_auto_reset flag ev = task_atomic λ k. ok (record ev { auto_reset = flag }, k)
