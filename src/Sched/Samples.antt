-- ===== src/Sched/Samples.antt =====
-- A kernel with three running tasks, and tasks that wait.
use neftis.Base.{
  ℕ, true, false, ◌≡◌, refl, inl, inr, [], ◌∷◌, ◌==◌, if◌then◌else◌, has, Bool-cases, arith,
}
use neftis.Sched.{Kernel, Tid, task, running, soft_wait}
use neftis.Sched.WaitQueue.{WaitQueue}
use neftis.Sched.Invariant.{IsSound}
use neftis.Sched.Waiting.{AreWaiting}

-- Three tasks run; all others wait, the idle task 0 among them.
abbrev states : Tid → ℕ
states t = if has t (1 ∷ 2 ∷ 3 ∷ []) then running else soft_wait

abbrev pub three : Kernel
three = record {
  present = true;
  enabled = true;
  sched_pending = false;
  idle = 0;
  runqueue = 1 ∷ 2 ∷ 3 ∷ [];
  context = task;
  current = 1;
  ts_state = states;
  ts_wakeup_reason = λ t. 0;
  ts_switch_count = λ t. 0;
}

pub three-IsSound : IsSound three
three-IsSound = record {
  distinct = (refl, (refl, (refl, tt)));
  listed = λ t. elim (Bool-cases (has t (1 ∷ 2 ∷ 3 ∷ []))) [ inl e ↦ rw e | inr e ↦ rw e ];
  idle_alive = λ e. omega arith;
}

abbrev pub waiters : WaitQueue
waiters = record { tasks = 7 ∷ 8 ∷ []; entries = 2 }

waiter-stopped : (t : Tid) → has t (7 ∷ 8 ∷ []) ≡ true → (states t == running) ≡ false
waiter-stopped t h = ground arith

pub waiters-AreWaiting : AreWaiting (7 ∷ 8 ∷ []) three
waiters-AreWaiting = record { distinct = (refl, (refl, tt)); stopped = waiter-stopped }
