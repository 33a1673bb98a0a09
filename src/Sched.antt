-- ===== src/Sched.antt =====
-- The scheduler: microkernel/sched.c over microkernel/scheds/default/defsched.c, with `switch_to`
-- of microkernel/task.c. The run queue is the list of a ring's nodes, from its head on, and the
-- ring operations are their lists by the theorems of Links.Circular. An operation that switches
-- tasks returns the state in which the other task goes on. One processor; the interrupt flag is
-- not part of the state.
pub mod WaitQueue
pub mod Mutex
pub mod Event
pub mod Invariant
pub mod Turns
pub mod Sleep
pub mod Exclusion
pub mod Fifo
pub mod Critical
pub mod Waiting
pub mod Signals
pub mod Samples
mod Tests
use neftis.Base.{
  ℕ, zero, suc, ◌+◌, Bool, true, false, not, ◌&&◌, List, [], ◌∷◌, ◌++◌, ◌==◌, ltb, if◌then◌else◌,
  erase, ◌≡◌, refl,
}

-- `bug` is FAIL or an assertion that fails: the kernel stops.
pub data Result (A : Type 0) : Type 0 where
  ok : A → Result A
  bug : Result A

infixl 5 ◌>>=◌ ◌>>◌
abbrev pub ◌>>=◌ : {A B : Type 0} → Result A → (A → Result B) → Result B
ok a >>= f = f a
bug >>= f = bug

abbrev pub ◌>>◌ : {A B : Type 0} → Result A → Result B → Result B
r >> s = r >>= λ _. s

-- The kernel context of kctx.h.
pub data Context : Type 0 where
  boot_time : Context
  task : Context
  interrupt : Context

abbrev pub Tid : Type 0
Tid = ℕ

-- TASK_STATE_RUNNING, TASK_STATE_SOFT_WAIT and TASK_STATE_EXITED of task.h.
abbrev pub running : ℕ
running = 2

abbrev pub soft_wait : ℕ
soft_wait = 3

abbrev pub exited : ℕ
exited = 7

-- The fields of `struct defsched_info`, the current context and task, and the fields of each
-- `struct task` that the scheduler uses. `present` tells whether there is a current scheduler.
pub record Kernel : Type 0 where
  pub present : Bool
  pub enabled : Bool
  pub sched_pending : Bool
  pub idle : Tid
  pub runqueue : List Tid
  pub context : Context
  pub current : Tid
  pub ts_state : Tid → ℕ
  pub ts_wakeup_reason : Tid → ℕ
  pub ts_switch_count : Tid → ℕ

abbrev pub update : (Tid → ℕ) → Tid → ℕ → Tid → ℕ
update f t v u = if u == t then v else f u

-- `circular_list_scroll_next` and `circular_list_get_head` on the list of the nodes.
unfoldable pub scroll_next : List Tid → List Tid
scroll_next [] = []
scroll_next (t ∷ ts) = ts ++ t ∷ []

abbrev pub head_or : Tid → List Tid → Tid
head_or d [] = d
head_or d (t ∷ ts) = t

-- The switch proper: the task becomes current and its switches are counted.
unfoldable pub enter_task : Tid → Kernel → Kernel
enter_task t k = record k {
  context = task;
  current = t;
  ts_switch_count = update k.ts_switch_count t (k.ts_switch_count t + 1);
}

unfoldable pub switch_to : Tid → Kernel → Result Kernel
unfolding enter_task
switch_to t k = if k.ts_state t == exited then bug else elim k.context [
  | boot_time ↦ ok (enter_task t k)
  | _ ↦ if k.current == t then ok k else ok (enter_task t k)
]

-- `defsched_set_state`, from what `schedule` does.
unfoldable pub set_state_by : (Kernel → Result Kernel) → Bool → Kernel → Result Kernel
set_state_by resched state k =
    let k' : Kernel = record k { enabled = state } in
    if state && k.sched_pending then resched k' else ok k'

-- `defsched_sched` and `schedule` call each other when a critical section is left; `sched_fuel`
-- shows that one call deep is enough.
unfoldable pub sched_by : ℕ → Kernel → Result Kernel
unfolding set_state_by scroll_next switch_to
sched_by zero k = bug
sched_by (suc fuel) k =
    let saved = k.enabled in
    let queue : List Tid = scroll_next k.runqueue in
    let inside : Kernel = record k { enabled = false; runqueue = queue; sched_pending = false } in
    let left = set_state_by (sched_by fuel) saved inside in
    if k.enabled
    then left >>= switch_to (head_or k.idle queue)
    else ok (record k { sched_pending = true })

unfoldable pub defsched_sched : Kernel → Result Kernel
unfolding sched_by
defsched_sched = sched_by 1

unfoldable pub schedule : Kernel → Result Kernel
schedule k = if k.present then defsched_sched k else ok k

unfoldable pub defsched_set_state : Bool → Kernel → Result Kernel
unfolding set_state_by
defsched_set_state = set_state_by schedule

unfoldable pub defsched_sys_timer : Kernel → Result Kernel
defsched_sys_timer k =
    if k.enabled then defsched_sched k else ok (record k { sched_pending = true })

unfoldable pub schedule_on_tick : Kernel → Result Kernel
schedule_on_tick k = if k.present then defsched_sys_timer k else ok k

unfoldable pub pause : Kernel → Result Kernel
pause k = if k.present then defsched_set_state false k else ok k

unfoldable pub resume : Kernel → Result Kernel
resume k = if k.present then defsched_set_state true k else ok k

-- `sched_save` leaves the initial 0 of the critical section where there is no scheduler.
abbrev pub sched_save : Kernel → Bool
sched_save k = k.present && k.enabled

unfoldable pub sched_restore : Bool → Kernel → Result Kernel
sched_restore state k = if k.present then defsched_set_state state k else ok k

-- The body of a critical section between TASK_ATOMIC_ENTER and TASK_ATOMIC_LEAVE.
unfoldable pub task_atomic :
    {A : Type 0} → (Kernel → Result (A × Kernel)) → Kernel → Result (A × Kernel)
task_atomic body k = do
  inside ← pause k
  (a, done) ← body inside
  left ← sched_restore (sched_save k) done
  ok (a, left)

-- The run queue of a task that leaves it.
unfoldable pub leave_runqueue : Tid → Kernel → List Tid
leave_runqueue t k = if k.ts_state t == running then erase t k.runqueue else k.runqueue

-- `op` of the C function is given in its parts: the state, WAKEUP_DELAYED and WAKEUP_AGAIN.
unfoldable pub defsched_wake_up : Tid → ℕ → (delayed again : Bool) → ℕ → Kernel → Result Kernel
unfolding leave_runqueue
defsched_wake_up t op delayed again reason k =
    if (k.ts_state t == op) && not again
    then bug
    else if op == running
    then (let queue : List Tid = if ltb 0 reason then t ∷ k.runqueue else k.runqueue ++ t ∷ [] in
        let woken : Kernel = record k {
          runqueue = queue;
          ts_state = update k.ts_state t op;
          ts_wakeup_reason = update k.ts_wakeup_reason t reason;
        } in
        if delayed then ok woken else schedule woken)
    else ok (record k { runqueue = leave_runqueue t k; ts_state = update k.ts_state t op })

-- Without a scheduler it returns -1 and changes nothing.
unfoldable pub wake_up : Tid → ℕ → (delayed again : Bool) → ℕ → Kernel → Result Kernel
wake_up t op delayed again reason k =
    if k.present then defsched_wake_up t op delayed again reason k else ok k

-- The kernel does not stop, and the postcondition holds.
abbrev pub Returns : {A : Type 0} → (A → Type 0) → Result A → Type 0
Returns P (ok a) = P a
Returns P bug = ⊥

pub Returns-bind :
    {A B : Type 0} {P : A → Type 0} (Q : B → Type 0) (r : Result A) (f : A → Result B)
    → Returns P r
    → ((a : A) → P a → Returns Q (f a))
    → Returns Q (r >>= f)
Returns-bind Q (ok a) f p next = next a p
Returns-bind Q bug f p next = p

pub Returns-mono :
    {A : Type 0} {P Q : A → Type 0} (r : Result A)
    → Returns P r
    → ((a : A) → P a → Q a)
    → Returns Q r
Returns-mono (ok a) p weaken = weaken a p
Returns-mono bug p weaken = p

pub if-Returns :
    {A : Type 0} (P : A → Type 0) (b : Bool) (r s : Result A)
    → (b ≡ true → Returns P r)
    → (b ≡ false → Returns P s)
    → Returns P (if b then r else s)
if-Returns P true r s t f = t refl
if-Returns P false r s t f = f refl
