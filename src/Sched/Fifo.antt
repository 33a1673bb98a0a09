-- ===== src/Sched/Fifo.antt =====
-- The order of a wait queue, and its entries: `wait_queue_put_task`, `wait_queue_pop_task` and
-- `wait_queue_remove_task` of microkernel/waitqueue.c.
use mathlib.Core.List.{append-nil, append_assoc}
use neftis.Base.{
  ℕ, zero, suc, ◌+◌, true, ◌≡◌, ◌∙◌, refl, sym, ap, List, [], ◌∷◌, ◌++◌, none, some, arith, length,
}
use neftis.Sched.{Tid}
use neftis.Sched.WaitQueue.{WaitQueue, wait_queue_put_task, wait_queue_pop_task, pop_front}

-- The tasks are put in turn, and every entry is allocated.
pub put_all : List Tid → WaitQueue → WaitQueue
put_all [] wq = wq
put_all (t ∷ ts) wq = put_all ts (wait_queue_put_task true t wq).1

-- What a number of `wait_queue_pop_task` return, as long as there are tasks.
pub pop_all : ℕ → WaitQueue → List Tid × WaitQueue
pop_all zero wq = ([], wq)
pop_all (suc n) wq =
    let (t, rest) = wait_queue_pop_task wq in
    let (ts, last) = pop_all n rest in (elim t [ none ↦ ts | some t ↦ t ∷ ts ], last)

queue_eq :
    {ts us : List Tid} {n m : ℕ}
    → ts ≡ us
    → n ≡ m
    → ◌≡◌ {A = WaitQueue} (record { tasks = ts; entries = n }) (record { tasks = us; entries = m })
queue_eq e f = rw (e, f)

put_all-tasks :
    (ts us : List Tid) (n : ℕ)
    → put_all ts (record { tasks = us; entries = n })
      ≡ record { tasks = us ++ ts; entries = n + length ts }
unfolding put_all wait_queue_put_task
put_all-tasks [] us n = queue_eq (sym (append-nil us)) (omega arith)
put_all-tasks (t ∷ ts) us n =
    put_all-tasks ts (us ++ t ∷ []) (n + 1) ∙ queue_eq (append_assoc us (t ∷ []) ts) (omega arith)

pop_all-tasks :
    (ts us : List Tid) (n : ℕ)
    → pop_all (length ts) (record { tasks = ts ++ us; entries = n })
      ≡ (ts, record { tasks = us; entries = n })
unfolding pop_all wait_queue_pop_task pop_front
pop_all-tasks [] us n = refl
pop_all-tasks (t ∷ ts) us n = rw (pop_all-tasks ts us n)

-- A wait queue is first in, first out: the tasks that are put, where every entry is allocated, are
-- popped in their order, after those that were there. Nothing that is popped is freed: as many entries stay allocated as were
-- put.
pub pop_all-put_all :
    (wq : WaitQueue) (ts : List Tid)
    → pop_all (length (wq.tasks ++ ts)) (put_all ts wq)
      ≡ (wq.tasks ++ ts, record { tasks = []; entries = wq.entries + length ts })
pop_all-put_all wq ts =
    ap (pop_all (length (wq.tasks ++ ts)))
      (put_all-tasks ts wq.tasks wq.entries ∙ queue_eq (sym (append-nil (wq.tasks ++ ts))) refl)
    ∙ pop_all-tasks (wq.tasks ++ ts) [] (wq.entries + length ts)
