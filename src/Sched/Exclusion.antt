-- ===== src/Sched/Exclusion.antt =====
-- Mutual exclusion by the mutexes of microkernel/mutex.c: tasks that take and release one mutex,
-- in any order, among anything else that the kernel does.
use mathlib.Core.Path.{subst}
use neftis.Base.{
  Bool, true, false, ◌&&◌, ◌≡◌, ◌∙◌, refl, List, [], ◌∷◌, ◌==◌, if◌then◌else◌, erase, ==-refl,
  ==→eq, arith,
}
use neftis.Sched.{
  Kernel, Result, ok, bug, ◌>>=◌, Tid, task_atomic, pause, sched_restore, defsched_set_state,
  set_state_by, sched_save,
}
use neftis.Sched.WaitQueue.{sleep_inside, signal}
use neftis.Sched.Mutex.{
  Mutex, init_mutex, is_task, in_task, up_inside, up, take, down_inside, down_round,
  try_down_inside, try_down, reason_mutex,
}

-- The postcondition holds if the kernel does not stop.
abbrev Allows : {A : Type 0} → (A → Type 0) → Result A → Type 0
Allows P (ok a) = P a
Allows P bug = Unit {0}

Allows-bind :
    {A B : Type 0} {P : A → Type 0} (Q : B → Type 0) (r : Result A) (f : A → Result B)
    → Allows P r
    → ((a : A) → P a → Allows Q (f a))
    → Allows Q (r >>= f)
Allows-bind Q (ok a) f p next = next a p
Allows-bind Q bug f p next = tt

Allows-any : {A : Type 0} (r : Result A) → Allows (λ a. Unit {0}) r
Allows-any (ok a) = tt
Allows-any bug = tt

Allows-eq : {A : Type 0} (P : A → Type 0) (r : Result A) (a : A) → r ≡ ok a → Allows P r → P a
Allows-eq P r a e p = subst (Allows P) e p

if-Allows :
    {A : Type 0} (P : A → Type 0) (b : Bool) (r s : Result A)
    → (b ≡ true → Allows P r)
    → (b ≡ false → Allows P s)
    → Allows P (if b then r else s)
if-Allows P true r s t f = t refl
if-Allows P false r s t f = f refl

pause-current : (k : Kernel) → Allows (λ i. i.current ≡ k.current) (pause k)
unfolding pause defsched_set_state set_state_by
pause-current k = if-Allows (λ i. i.current ≡ k.current) k.present _ _ (λ p. refl) (λ p. refl)

-- A critical section yields what its body yields for the same task.
task_atomic-Allows :
    {A : Type 0} (P : A → Type 0) (body : Kernel → Result (A × Kernel)) (k : Kernel)
    → ((i : Kernel) → i.current ≡ k.current → Allows (λ r. P r.0) (body i))
    → Allows (λ r. P r.0) (task_atomic body k)
unfolding task_atomic
task_atomic-Allows P body k inner =
    Allows-bind (λ r. P r.0) (pause k) _ (pause-current k)
      (λ i e.
        Allows-bind (λ r. P r.0) (body i) _ (inner i e)
          (λ (a, done) p.
            Allows-bind (λ r. P r.0) (sched_restore (sched_save k) done) _
              (Allows-any (sched_restore (sched_save k) done)) (λ l _. p)))

-- What a round of `down` may do for the task `t`: it takes a free mutex, or waits for a locked one.
abbrev Tried : Mutex → Tid → Bool × Mutex → Type 0
Tried m t (true, m') = (m.locked ≡ false) × (m'.locked ≡ true) × (m'.owner ≡ t)
Tried m t (false, m') = (m.locked ≡ true) × (m'.locked ≡ true) × (m'.owner ≡ m.owner)

module _ (m : Mutex) (k : Kernel) where
  in_task-Allows :
      {A : Type 0} (P : A → Type 0) (r : Result A) → Allows P r → Allows P (in_task k r)
  in_task-Allows P r p = if-Allows P (is_task k.context) r bug (λ _. p) (λ _. tt)

  down_round-Tried : (alloc : Bool) → Allows (λ r. Tried m k.current r.0) (down_round alloc m k)
  unfolding down_round down_inside take
  down_round-Tried alloc = in_task-Allows _ _ (
      task_atomic-Allows (Tried m k.current) (down_inside alloc m) k (λ i e.
        if-Allows (λ r. Tried m k.current r.0) m.locked _ _
          (λ l.
            Allows-bind (λ r. Tried m k.current r.0) (sleep_inside alloc m.wq i) _
              (Allows-any (sleep_inside alloc m.wq i)) (λ (wq, k') _. (l, l, refl)))
          (λ free. (free, refl, e))))

  try_down-Tried : Allows (λ r. Tried m k.current r.0) (try_down m k)
  unfolding try_down try_down_inside take
  try_down-Tried = in_task-Allows _ _ (
      task_atomic-Allows (Tried m k.current) (try_down_inside m) k (λ i e.
        if-Allows (λ r. Tried m k.current r.0) m.locked _ _ (λ l. (l, l, refl))
          (λ free. (free, refl, e))))

  up-Allows :
      Allows (λ r. (m.locked ≡ true) × (m.owner ≡ k.current) × (r.0.locked ≡ false)) (up m k)
  unfolding up up_inside
  up-Allows =
      let P : Mutex → Type 0 =
        λ m'. (m.locked ≡ true) × (m.owner ≡ k.current) × (m'.locked ≡ false) in
      in_task-Allows _ _ (
        task_atomic-Allows P (up_inside m) k (λ i e.
          if-Allows (λ r. P r.0) (m.locked && (m.owner == i.current)) _ _
            (λ ours.
              Allows-bind (λ r. P r.0) (signal reason_mutex m.wq i) _
                (Allows-any (signal reason_mutex m.wq i))
                (λ (wq, k') _. (ground arith, ==→eq m.owner i.current (ground arith) ∙ e, refl)))
            (λ _. tt)))

-- One mutex, the rest of the kernel, and the tasks that are between taking the mutex and
-- releasing it.
pub record System : Type 0 where
  pub kernel : Kernel
  pub mutex : Mutex
  pub holders : List Tid

abbrev entered : Bool → Tid → List Tid → List Tid
entered got t ts = if got then t ∷ ts else ts

-- What happens next: a round of `down`, a `try_down` or an `up` by the task that runs then, or
-- anything that the kernel does without the mutex.
pub data Step : System → System → Type 0 where
  down_step :
      (s : System) (alloc got : Bool) (m : Mutex) (k : Kernel)
      → down_round alloc s.mutex s.kernel ≡ ok ((got, m), k)
      → Step s (record { kernel = k; mutex = m; holders = entered got s.kernel.current s.holders })
  try_step :
      (s : System) (got : Bool) (m : Mutex) (k : Kernel)
      → try_down s.mutex s.kernel ≡ ok ((got, m), k)
      → Step s (record { kernel = k; mutex = m; holders = entered got s.kernel.current s.holders })
  up_step :
      (s : System) (m : Mutex) (k : Kernel)
      → up s.mutex s.kernel ≡ ok (m, k)
      → Step s (record { kernel = k; mutex = m; holders = erase s.kernel.current s.holders })
  other_step : (s : System) (k : Kernel) → Step s (record s { kernel = k })

pub data Reachable : System → Type 0 where
  start : (k : Kernel) → Reachable (record { kernel = k; mutex = init_mutex false k; holders = [] })
  next : (s s' : System) → Reachable s → Step s s' → Reachable s'

-- The tasks that the mutex says hold it.
abbrev pub owners : Mutex → List Tid
owners m = if m.locked then m.owner ∷ [] else []

Tried-owners :
    (m m' : Mutex) (t : Tid) (got : Bool) (h : List Tid)
    → Tried m t (got, m')
    → h ≡ owners m
    → entered got t h ≡ owners m'
Tried-owners m m' t true h (free, l, o) e = rw (e, free, l, o)
Tried-owners m m' t false h (was, l, o) e = rw (e, was, l, o)

released-owners :
    (m m' : Mutex) (t : Tid) (h : List Tid)
    → (m.locked ≡ true) × (m.owner ≡ t) × (m'.locked ≡ false)
    → h ≡ owners m
    → erase t h ≡ owners m'
released-owners m m' t h (was, o, free) e = rw (e, was, o, free, ==-refl t)

Step-owners :
    (s s' : System) → Step s s' → s.holders ≡ owners s.mutex → s'.holders ≡ owners s'.mutex
Step-owners _ _ (down_step s alloc got m k done) e =
    Tried-owners s.mutex m s.kernel.current got s.holders
      (Allows-eq (λ r. Tried s.mutex s.kernel.current r.0) (down_round alloc s.mutex s.kernel) _
        done (down_round-Tried s.mutex s.kernel alloc))
      e
Step-owners _ _ (try_step s got m k done) e =
    Tried-owners s.mutex m s.kernel.current got s.holders
      (Allows-eq (λ r. Tried s.mutex s.kernel.current r.0) (try_down s.mutex s.kernel) _ done
        (try_down-Tried s.mutex s.kernel))
      e
Step-owners _ _ (up_step s m k done) e =
    released-owners s.mutex m s.kernel.current s.holders
      (Allows-eq _ (up s.mutex s.kernel) _ done (up-Allows s.mutex s.kernel)) e
Step-owners _ _ (other_step s k) e = e

-- In every state that tasks can reach, the tasks inside are those that the mutex names: its owner
-- if it is locked, and else none. No two tasks are ever inside.
pub mutual_exclusion : (s : System) → Reachable s → s.holders ≡ owners s.mutex
unfolding init_mutex
mutual_exclusion _ (start k) = refl
mutual_exclusion _ (next s s' r step) = Step-owners s s' step (mutual_exclusion s r)
