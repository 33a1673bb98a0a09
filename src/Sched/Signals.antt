-- ===== src/Sched/Signals.antt =====
-- `up` of microkernel/mutex.c and `event_signal` of microkernel/event.c: whom they wake.
use mathlib.Core.Path.{subst}
use neftis.Base.{
  Bool, true, false, not, ◌&&◌, ◌||◌, ◌≡◌, ◌∙◌, refl, sym, ap, List, [], ◌∷◌, ◌==◌, if◌then◌else◌,
  ==-refl,
}
use neftis.Sched.{
  Kernel, Result, ok, bug, ◌>>=◌, Tid, task, task_atomic, Returns, Returns-bind, running,
}
use neftis.Sched.WaitQueue.{WaitQueue, signal, signal_all_inside}
use neftis.Sched.Mutex.{Mutex, is_task, up_inside, up, reason_mutex}
use neftis.Sched.Event.{Event, event_signal_inside, event_signal, reason_event}
use neftis.Sched.Critical.{Entered, And, task_atomic-Returns}
use neftis.Sched.Invariant.{IsSound}
use neftis.Sched.Waiting.{
  AreWaiting, Woken, Kept-Woken, Entered-Woken, Entered-AreWaiting, signal_all-Woken, signal-Woken,
}

-- A signal to an event wakes every task that waits for it, and no other. It returns, with a sound
-- kernel, from a sound kernel that has a scheduler, if the event is not signaled yet or has
-- automatic reset, and if the tasks of its queue are distinct and not running.
pub event_signal-wakes_all :
    (ev : Event) (k : Kernel)
    → IsSound k
    → k.present ≡ true
    → AreWaiting ev.wq.tasks k
    → (ev.signaled && not ev.auto_reset) ≡ false
    → Returns
        (And λ ev' k'.
          (ev'.wq.tasks ≡ [])
          × (ev'.signaled ≡ (ev.signaled || not ev.auto_reset))
          × Woken ev.wq.tasks k k')
        (event_signal ev k)
unfolding event_signal event_signal_inside
event_signal-wakes_all ev k v p w new =
    let P : Event → Kernel → Type 0 = λ ev' k'.
      (ev'.wq.tasks ≡ [])
      × (ev'.signaled ≡ (ev.signaled || not ev.auto_reset))
      × Woken ev.wq.tasks k k' in
    task_atomic-Returns P (event_signal_inside ev) k v
      (λ i e. rw new (
        Returns-bind (And P) (signal_all_inside reason_event ev.wq i) _
          (signal_all-Woken reason_event ev.wq.entries i e.0 (e.2 ∙ p) ev.wq.tasks
            (Entered-AreWaiting ev.wq.tasks k i e w))
          (λ (wq, k') (empty, o). (
            (empty, set ev.auto_reset ev.signaled, Entered-Woken ev.wq.tasks k i k' e o),
            o.sound,
          ))))
      (λ ev' k' k'' (empty, s, o) kept. (empty, s, Kept-Woken ev.wq.tasks k k' k'' o kept))
  where
    set : (a s : Bool) → (if a then s else true) ≡ (s || not a)
    set true true = refl
    set true false = refl
    set false true = refl
    set false false = refl

-- The owner that releases a locked mutex with waiters, as a task and in a sound kernel that has a
-- scheduler, unlocks it and wakes the one that waits longest, and no other, if that one is not
-- running; `up` returns, with a sound kernel.
pub up-wakes_first :
    (m : Mutex) (k : Kernel) (t : Tid) (ts : List Tid)
    → IsSound k
    → k.present ≡ true
    → k.context ≡ task
    → m.locked ≡ true
    → m.owner ≡ k.current
    → m.wq.tasks ≡ t ∷ ts
    → (k.ts_state t == running) ≡ false
    → Returns (And λ m' k'. (m'.locked ≡ false) × (m'.wq.tasks ≡ ts) × Woken (t ∷ []) k k') (up m k)
unfolding up up_inside
up-wakes_first m k t ts v p c l o q stopped =
    let P : Mutex → Kernel → Type 0 =
      λ m' k'. (m'.locked ≡ false) × (m'.wq.tasks ≡ ts) × Woken (t ∷ []) k k' in
    subst (λ b. Returns (And P) (if b then task_atomic (up_inside m) k else bug))
      (sym (ap is_task c))
      (task_atomic-Returns P (up_inside m) k v
        (λ i e.
          let after : WaitQueue × Kernel → Result (Mutex × Kernel) =
            λ (wq, k'). ok (record m { locked = false; wq = wq }, k') in
          subst (λ b. Returns (And P) (if b then signal reason_mutex m.wq i >>= after else bug))
            (sym (ours i e))
            (subst
              (λ ws.
                Returns (And P)
                  (signal reason_mutex (record { tasks = ws; entries = m.wq.entries }) i >>= after))
              (sym q)
              (Returns-bind (And P)
                (signal reason_mutex (record { tasks = t ∷ ts; entries = m.wq.entries }) i) after
                (signal-Woken reason_mutex m.wq.entries i e.0 (e.2 ∙ p) t ts
                  (ap (λ f. f t == running) e.1 ∙ stopped))
                (λ (wq, k') (rest, w).
                  ((refl, rest, Entered-Woken (t ∷ []) k i k' e w), w.sound)))))
        (λ m' k' k'' (free, s, o) kept. (free, s, Kept-Woken (t ∷ []) k k' k'' o kept)))
  where
    ours : (i : Kernel) → Entered k i → (m.locked && (m.owner == i.current)) ≡ true
    ours i e =
        ap (λ b. b && (m.owner == i.current)) l
        ∙ ap (λ x. m.owner == x) (e.3 ∙ sym o)
        ∙ ==-refl m.owner
