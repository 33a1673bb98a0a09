-- ===== src/Sched/Invariant.antt =====
-- The run queue holds the running tasks, each once, under every operation of the scheduler.
use mathlib.Core.List.{append-nil}
use neftis.Base.{
  ℕ, Bool, true, false, not, ◌&&◌, ◌||◌, ◌≡◌, ◌∙◌, refl, sym, ap, ◌≢◌, inl, inr, List, [], ◌∷◌,
  ◌++◌, ◌==◌, ltb, if◌then◌else◌, has, has-append, has-append_cons, has-erase_other, IsDistinct,
  insert-IsDistinct, erase-IsDistinct, Bool-cases, arith, ==→eq,
}
use neftis.Sched.{
  Kernel, ok, Tid, running, exited, update, scroll_next, head_or, switch_to, schedule,
  defsched_sched, Returns, Returns-mono, if-Returns, defsched_wake_up, wake_up, leave_runqueue,
}

pub record IsSound (k : Kernel) : Type 0 where
  pub distinct : IsDistinct k.runqueue
  pub listed : (t : Tid) → has t k.runqueue ≡ (k.ts_state t == running)
  pub idle_alive : k.ts_state k.idle ≢ exited

-- What a switch to `t` leaves as it is.
abbrev pub Switched : Tid → Kernel → Kernel → Type 0
Switched t k k' =
    (k'.current ≡ t)
    × (k'.runqueue ≡ k.runqueue)
    × (k'.ts_state ≡ k.ts_state)
    × (k'.idle ≡ k.idle)
    × (k'.enabled ≡ k.enabled)
    × (k'.sched_pending ≡ k.sched_pending)
    × (k'.present ≡ k.present)

pub switch_to-Switched :
    (t : Tid) (k : Kernel) → k.ts_state t ≢ exited → Returns (Switched t k) (switch_to t k)
unfolding switch_to
switch_to-Switched t k alive = ground arith

pub same-IsSound :
    (k k' : Kernel)
    → k'.runqueue ≡ k.runqueue
    → k'.ts_state ≡ k.ts_state
    → k'.idle ≡ k.idle
    → IsSound k
    → IsSound k'
same-IsSound k k' q s i v = record {
  distinct = rw q v.distinct;
  listed = rw (q, s) v.listed;
  idle_alive = rw (s, i) v.idle_alive;
}

pub Switched-IsSound : (t : Tid) (k k' : Kernel) → IsSound k → Switched t k k' → IsSound k'
Switched-IsSound t k k' v (c, q, s, i, e, p, r) = same-IsSound k k' q s i v

-- Turning the queue keeps its tasks.
scroll-IsDistinct : (ts : List Tid) → IsDistinct ts → IsDistinct (scroll_next ts)
unfolding scroll_next
scroll-IsDistinct [] d = d
scroll-IsDistinct (t ∷ ts) d = insert-IsDistinct t ts [] (rw append-nil d.0) (rw append-nil d.1)

has-scroll : (u : Tid) (ts : List Tid) → has u (scroll_next ts) ≡ has u ts
unfolding scroll_next
has-scroll u [] = refl
has-scroll u (t ∷ ts) = ground (arith, has-append u ts (t ∷ []))

pub scrolled-IsSound :
    (k : Kernel) (e p : Bool)
    → IsSound k
    → IsSound (record k { enabled = e; runqueue = scroll_next k.runqueue; sched_pending = p })
scrolled-IsSound k e p v = record {
  distinct = scroll-IsDistinct k.runqueue v.distinct;
  listed = λ t. has-scroll t k.runqueue ∙ v.listed t;
  idle_alive = v.idle_alive;
}

exited-not_running : (s : ℕ) → s ≡ exited → (s == running) ≡ true → ⊥
exited-not_running s e r = ground arith

-- The task that is chosen has not exited.
pub head-alive :
    (k : Kernel) (ts : List Tid)
    → k.ts_state k.idle ≢ exited
    → ((t : Tid) → has t ts ≡ true → (k.ts_state t == running) ≡ true)
    → k.ts_state (head_or k.idle ts) ≢ exited
head-alive k [] i h = i
head-alive k (t ∷ ts) i h = λ e. absurd (exited-not_running (k.ts_state t) e (h t (ground arith)))

-- What `schedule` does with an enabled scheduler: the ring is turned and its head runs.
pub defsched_sched-enabled :
    (k : Kernel)
    → k.enabled ≡ true
    → defsched_sched k
      ≡ switch_to
          (head_or k.idle (scroll_next k.runqueue))
          (record k { enabled = true; runqueue = scroll_next k.runqueue; sched_pending = false })
unfolding defsched_sched
defsched_sched-enabled k e = rw e

-- A paused scheduler only notes that it was called.
pub defsched_sched-paused :
    (k : Kernel) → k.enabled ≡ false → defsched_sched k ≡ ok (record k { sched_pending = true })
unfolding defsched_sched
defsched_sched-paused k e = rw e

pub turn-IsSound :
    (k : Kernel)
    → IsSound k
    → Returns IsSound (
        switch_to
          (head_or k.idle (scroll_next k.runqueue))
          (record k { enabled = true; runqueue = scroll_next k.runqueue; sched_pending = false }))
turn-IsSound k v =
    let k' : Kernel = record k {
      enabled = true;
      runqueue = scroll_next k.runqueue;
      sched_pending = false;
    } in
    let v' = scrolled-IsSound k true false v in
    let t = head_or k.idle (scroll_next k.runqueue) in
    Returns-mono (switch_to t k')
      (switch_to-Switched t k'
        (head-alive k' (scroll_next k.runqueue) v.idle_alive (λ u h. sym (v'.listed u) ∙ h)))
      (λ k'' s. Switched-IsSound t k' k'' v' s)

pub schedule-IsSound : (k : Kernel) → IsSound k → Returns IsSound (schedule k)
unfolding schedule
schedule-IsSound k v =
    if-Returns IsSound k.present (defsched_sched k) (ok k)
      (λ present. elim (Bool-cases k.enabled) [
        | inl e ↦ rw (defsched_sched-enabled k e) (turn-IsSound k v)
        | inr e ↦
            rw (defsched_sched-paused k e)
              (same-IsSound k (record k { sched_pending = true }) refl refl refl v)
      ])
      (λ absent. v)

idle-kept :
    (i t op s : ℕ)
    → ((t == i) && (op == exited)) ≡ false
    → s ≢ exited
    → (if i == t then op else s) ≢ exited
idle-kept i t op s alive was = ground arith

-- The running tasks after `t` gets the state `op`.
running_after : (f : Tid → ℕ) (t op u : Tid) → Bool
running_after f t op u = if u == t then op == running else f u == running

update_running :
    (f : Tid → ℕ) (t op u : Tid) → (update f t op u == running) ≡ running_after f t op u
unfolding running_after
update_running f t op u = elim (Bool-cases (u == t)) [ inl e ↦ rw e | inr e ↦ rw e ]

leave-IsDistinct : (k : Kernel) (t : Tid) → IsSound k → IsDistinct (leave_runqueue t k)
unfolding leave_runqueue
leave-IsDistinct k t v = ground (arith, erase-IsDistinct t k.runqueue v.distinct, v.distinct)

not_listed :
    (k : Kernel) (t u : Tid)
    → IsSound k
    → (k.ts_state t == running) ≡ false
    → (u == t) ≡ true
    → has u k.runqueue ≡ false
not_listed k t u v stopped same =
    v.listed u ∙ ap (λ n. k.ts_state n == running) (==→eq u t same) ∙ stopped

has-leave :
    (k : Kernel) (t op u : Tid)
    → (op == running) ≡ false
    → IsSound k
    → has u (leave_runqueue t k) ≡ running_after k.ts_state t op u
unfolding leave_runqueue running_after
has-leave k t op u other v = elim (Bool-cases (k.ts_state t == running)) [
  | inl runs ↦
      rw (runs, has-erase_other u t k.runqueue v.distinct, v.listed u, other) (pick (u == t) _)
  | inr stopped ↦
      rw (stopped, other)
        (elim (Bool-cases (u == t)) [
          | inl same ↦ rw same (not_listed k t u v stopped same)
          | inr differs ↦ rw differs (v.listed u)
        ])
]
  where
    pick : (b c : Bool) → (not b && c) ≡ (if b then false else c)
    pick true c = refl
    pick false c = refl

-- A task whose state is set to something else than running leaves the queue.
pub stop-IsSound :
    (k : Kernel) (t : Tid) (op : ℕ)
    → (op == running) ≡ false
    → ((t == k.idle) && (op == exited)) ≡ false
    → IsSound k
    → IsSound (record k { runqueue = leave_runqueue t k; ts_state = update k.ts_state t op })
stop-IsSound k t op other alive v = record {
  distinct = leave-IsDistinct k t v;
  listed = λ u. has-leave k t op u other v ∙ sym (update_running k.ts_state t op u);
  idle_alive = λ e. idle-kept k.idle t op (k.ts_state k.idle) alive v.idle_alive e;
}

has-start :
    (k : Kernel) (t u : Tid) (a c : List Tid)
    → k.runqueue ≡ a ++ c
    → IsSound k
    → has u (a ++ t ∷ c) ≡ running_after k.ts_state t running u
unfolding running_after
has-start k t u a c whole v = rw (has-append_cons u t a c, ← whole, v.listed u) (pick (u == t) _)
  where
    pick : (b d : Bool) → (b || d) ≡ (if b then true else d)
    pick true d = refl
    pick false d = refl

-- A task that was not running is queued at either end.
start-IsSound :
    (k : Kernel) (t : Tid) (a c : List Tid) (reason : Tid → ℕ)
    → k.runqueue ≡ a ++ c
    → (k.ts_state t == running) ≡ false
    → IsSound k
    → IsSound (record k {
      runqueue = a ++ t ∷ c;
      ts_state = update k.ts_state t running;
      ts_wakeup_reason = reason;
    })
start-IsSound k t a c reason whole stopped v = record {
  distinct =
      insert-IsDistinct t a c (rw (← whole) (v.listed t ∙ stopped)) (rw (← whole) v.distinct);
  listed = λ u. has-start k t u a c whole v ∙ sym (update_running k.ts_state t running u);
  idle_alive = λ e. idle-kept k.idle t running (k.ts_state k.idle) (ground arith) v.idle_alive e;
}

-- The kernel after a task is set running, before it may be scheduled.
abbrev pub woken : Tid → ℕ → ℕ → Kernel → Kernel
woken t op reason k = record k {
  runqueue = if ltb 0 reason then t ∷ k.runqueue else k.runqueue ++ t ∷ [];
  ts_state = update k.ts_state t op;
  ts_wakeup_reason = update k.ts_wakeup_reason t reason;
}

module _ (k : Kernel) (t op : ℕ) (delayed again : Bool) (reason : ℕ) (v : IsSound k) where
  pub woken-IsSound :
      op ≡ running → (k.ts_state t == running) ≡ false → IsSound (woken t op reason k)
  woken-IsSound e stopped = elim (Bool-cases (ltb 0 reason)) [
    | inl high ↦ rw (e, high) (start-IsSound k t [] k.runqueue _ refl stopped v)
    | inr low ↦
        rw (e, low) (start-IsSound k t k.runqueue [] _ (sym (append-nil k.runqueue)) stopped v)
  ]

  module _ (new : ((k.ts_state t == op) && not again) ≡ false)
      (once : ((op == running) && (k.ts_state t == running)) ≡ false)
      (alive : ((t == k.idle) && (op == exited)) ≡ false) where
    run-IsSound :
        (op == running) ≡ true
        → Returns IsSound
            (if delayed then ok (woken t op reason k) else schedule (woken t op reason k))
    run-IsSound runs =
        let w =
          woken-IsSound (==→eq op running runs)
            (sym (ap (λ b. b && (k.ts_state t == running)) runs) ∙ once) in
        if-Returns IsSound delayed (ok (woken t op reason k)) (schedule (woken t op reason k))
          (λ _. w) (λ _. schedule-IsSound (woken t op reason k) w)

    defsched_wake_up-IsSound : Returns IsSound (defsched_wake_up t op delayed again reason k)
    unfolding defsched_wake_up
    defsched_wake_up-IsSound =
        rw new
          (if-Returns IsSound (op == running) _ _ run-IsSound (λ e. stop-IsSound k t op e alive v))

    -- `wake_up` does not stop the kernel, and the run queue holds just the running tasks after it, if
    -- it did before, the task is not in the state already (unless it is woken again), a running task
    -- is not queued a second time, and the idle task does not exit.
    pub wake_up-IsSound : Returns IsSound (wake_up t op delayed again reason k)
    unfolding wake_up
    wake_up-IsSound = if-Returns IsSound k.present _ _ (λ _. defsched_wake_up-IsSound) (λ _. v)
