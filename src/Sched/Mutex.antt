-- ===== src/Sched/Mutex.antt =====
-- Mutexes: microkernel/mutex.c. The body of `down`'s loop is an operation of its own: a task that
-- sleeps comes back to the loop's test when it runs again.
use neftis.Base.{ℕ, Bool, true, false, [], ◌==◌, if◌then◌else◌, ◌&&◌}
use neftis.Sched.{
  Kernel, Result, ok, bug, ◌>>=◌, Tid, Context, boot_time, task, interrupt, task_atomic,
}
use neftis.Sched.WaitQueue.{WaitQueue, signal, sleep_inside}

-- `locked` is `value == MUTEX_LOCKED`.
pub record Mutex : Type 0 where
  pub locked : Bool
  pub owner : Tid
  pub wq : WaitQueue

-- WAKEUP_REASON_MUTEX
abbrev pub reason_mutex : ℕ
reason_mutex = 20

unfoldable pub init_mutex : (locked : Bool) → Kernel → Mutex
init_mutex locked k = record {
  locked = locked;
  owner = k.current;
  wq = record { tasks = []; entries = 0 };
}

abbrev pub is_task : Context → Bool
is_task boot_time = false
is_task task = true
is_task interrupt = false

-- ASSERT (get_current_context () == KERNEL_CONTEXT_TASK)
abbrev pub in_task : {A : Type 0} → Kernel → Result A → Result A
in_task k r = if is_task k.context then r else bug

-- What `up` does in its critical section.
unfoldable pub up_inside : Mutex → Kernel → Result (Mutex × Kernel)
up_inside m k =
    if m.locked && (m.owner == k.current)
    then (signal reason_mutex m.wq k >>= λ (wq, k'). ok (record m { locked = false; wq = wq }, k'))
    else bug

unfoldable pub up : Mutex → Kernel → Result (Mutex × Kernel)
up m k = in_task k (task_atomic (up_inside m) k)

-- The task that runs takes the mutex.
unfoldable pub take : Mutex → Kernel → (Bool × Mutex) × Kernel
take m k = ((true, record m { locked = true; owner = k.current }), k)

unfoldable pub down_inside : (alloc : Bool) → Mutex → Kernel → Result ((Bool × Mutex) × Kernel)
unfolding take
down_inside alloc m k =
    if m.locked
    then (sleep_inside alloc m.wq k >>= λ (wq, k'). ok ((false, record m { wq = wq }), k'))
    else ok (take m k)

-- One round of the loop of `down`; the Boolean is `locked`, which ends the loop.
unfoldable pub down_round : (alloc : Bool) → Mutex → Kernel → Result ((Bool × Mutex) × Kernel)
down_round alloc m k = in_task k (task_atomic (down_inside alloc m) k)

unfoldable pub try_down_inside : Mutex → Kernel → Result ((Bool × Mutex) × Kernel)
unfolding take
try_down_inside m k = if m.locked then ok ((false, m), k) else ok (take m k)

-- The Boolean is `result == 0`.
unfoldable pub try_down : Mutex → Kernel → Result ((Bool × Mutex) × Kernel)
try_down m k = in_task k (task_atomic (try_down_inside m) k)
