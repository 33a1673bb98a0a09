-- ===== src/Sched/WaitQueue.antt =====
-- Wait queues: microkernel/waitqueue.c. A queue is the list of its entries' tasks, first in first
-- out; an entry is a `struct waiting_task_info`, and `entries` counts those that are allocated.
-- Whether an allocation succeeds is an argument.
use neftis.Base.{
  ℕ, ◌+◌, ◌-◌, Bool, true, false, Option, none, some, List, [], ◌∷◌, ◌++◌, if◌then◌else◌, erase,
  has, length,
}
use neftis.Sched.{
  Kernel, Result, ok, bug, ◌>>=◌, Tid, running, soft_wait, wake_up, schedule, task_atomic,
}

pub record WaitQueue : Type 0 where
  pub tasks : List Tid
  pub entries : ℕ

-- `KERNEL_ERROR_VALUE` is `false`.
unfoldable pub wait_queue_put_task : (alloc : Bool) → Tid → WaitQueue → Bool × WaitQueue
wait_queue_put_task alloc t wq =
    if alloc
    then (true, record { tasks = wq.tasks ++ t ∷ []; entries = wq.entries + 1 })
    else (false, wq)

-- Whether `wait_queue_lookup_task` finds an entry; the assertion wants a queue that is not empty.
unfoldable pub wait_queue_lookup_task : WaitQueue → Tid → Result Bool
wait_queue_lookup_task wq t = elim wq.tasks [ [] ↦ bug | u ∷ us ↦ ok (has t (u ∷ us)) ]

unfoldable pub wait_queue_remove_task : WaitQueue → Tid → Result WaitQueue
unfolding wait_queue_lookup_task
wait_queue_remove_task wq t = do
  found ← wait_queue_lookup_task wq t
  if found then ok (record { tasks = erase t wq.tasks; entries = wq.entries - 1 }) else bug

-- The entry is unlinked and not freed.
unfoldable pub pop_front : ℕ → List Tid → Option Tid × WaitQueue
pop_front n [] = (none, record { tasks = []; entries = n })
pop_front n (t ∷ ts) = (some t, record { tasks = ts; entries = n })

unfoldable pub wait_queue_pop_task : WaitQueue → Option Tid × WaitQueue
unfolding pop_front
wait_queue_pop_task wq = pop_front wq.entries wq.tasks

-- `wait_queue_destroy` refuses a queue with tasks in it: KERNEL_ERROR_VALUE is `false`.
unfoldable pub wait_queue_destroy : WaitQueue → Bool
wait_queue_destroy wq = elim wq.tasks [ [] ↦ true | _ ↦ false ]

unfoldable pub wait_queue_remove_all : WaitQueue → WaitQueue
wait_queue_remove_all wq = elim wq.tasks [
  | [] ↦ wq
  | t ∷ ts ↦ record { tasks = []; entries = wq.entries - length (t ∷ ts) }
]

unfoldable pub wake_popped : Option Tid → ℕ → Kernel → Result Kernel
wake_popped none reason k = ok k
wake_popped (some t) reason k = wake_up t running false false reason k

unfoldable pub signal : ℕ → WaitQueue → Kernel → Result (WaitQueue × Kernel)
unfolding wait_queue_pop_task wake_popped
signal reason wq k =
    let (t, rest) = wait_queue_pop_task wq in wake_popped t reason k >>= λ k'. ok (rest, k')

-- The loop of `__signal_all`: every task is popped and woken, later ones too.
unfoldable pub wake_all : ℕ → List Tid → Kernel → Result Kernel
wake_all reason [] k = ok k
wake_all reason (t ∷ ts) k = wake_up t running true true reason k >>= λ k'. wake_all reason ts k'

unfoldable pub signal_all_inside : ℕ → WaitQueue → Kernel → Result (WaitQueue × Kernel)
unfolding wake_all
signal_all_inside reason wq k =
    let emptied : WaitQueue = record { tasks = []; entries = wq.entries } in
    elim wq.tasks [
      | [] ↦ ok (emptied, k)
      | t ∷ ts ↦ wake_all reason (t ∷ ts) k >>= λ woken. schedule woken >>= λ k'. ok (emptied, k')
    ]

unfoldable pub signal_all : ℕ → WaitQueue → Kernel → Result (WaitQueue × Kernel)
signal_all reason wq = task_atomic (signal_all_inside reason wq)

-- `__sleep`, which does not look at what `wait_queue_put_task` returns.
unfoldable pub sleep_inside : (alloc : Bool) → WaitQueue → Kernel → Result (WaitQueue × Kernel)
unfolding wait_queue_put_task
sleep_inside alloc wq k =
    let (done, wq') = wait_queue_put_task alloc k.current wq in
    wake_up k.current soft_wait false false 0 k >>= λ waiting.
    schedule waiting >>= λ k'. ok (wq', k')

unfoldable pub sleep : (alloc : Bool) → WaitQueue → Kernel → Result (WaitQueue × Kernel)
sleep alloc wq = task_atomic (sleep_inside alloc wq)
