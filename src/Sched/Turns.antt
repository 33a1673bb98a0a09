-- ===== src/Sched/Turns.antt =====
-- Whose turn it is: the timer, tasks that are woken and tasks that go to sleep.
use mathlib.Core.Bool.{false≢true}
use mathlib.Core.List.{append_assoc, append-nil}
use mathlib.Core.Path.{subst}
use neftis.Base.{
  ℕ, zero, suc, ◌<◌, true, false, ◌≡◌, ◌∙◌, refl, sym, ap, inl, inr, List, [], ◌∷◌, ◌++◌, ◌==◌,
  if◌then◌else◌, if-true, length, Bool-cases, lt→ltb,
}
use neftis.Sched.{
  Kernel, Result, ok, ◌>>=◌, Tid, running, scroll_next, head_or, switch_to, schedule,
  defsched_sched, Returns, Returns-mono, Returns-bind, if-Returns, defsched_wake_up, wake_up,
  schedule_on_tick, defsched_sys_timer, pause, resume, defsched_set_state, sched_by,
}
use neftis.Sched.Invariant.{
  IsSound, switch_to-Switched, defsched_sched-enabled, scrolled-IsSound, head-alive, woken,
  woken-IsSound, Switched-IsSound,
}

-- However deep `defsched_sched` and `schedule` may call each other, the call is made once.
pub sched_fuel : (fuel : ℕ) (k : Kernel) → sched_by (suc fuel) k ≡ defsched_sched k
unfolding defsched_sched
sched_fuel fuel k = elim (Bool-cases k.enabled) [ inl e ↦ rw e | inr e ↦ rw e ]

-- What a turn of the ring leaves.
abbrev pub Turned : List Tid → Kernel → Kernel → Type 0
Turned ts k k' =
    (k'.current ≡ head_or k.idle ts)
    × (k'.runqueue ≡ ts)
    × (k'.enabled ≡ true)
    × (k'.sched_pending ≡ false)
    × (k'.present ≡ k.present)
    × (k'.ts_state ≡ k.ts_state)
    × IsSound k'

pub turn-Turned :
    (k : Kernel)
    → IsSound k
    → Returns (Turned (scroll_next k.runqueue) k) (
        switch_to
          (head_or k.idle (scroll_next k.runqueue))
          (record k { enabled = true; runqueue = scroll_next k.runqueue; sched_pending = false }))
turn-Turned k v =
    let ts : List Tid = scroll_next k.runqueue in
    let k' : Kernel = record k { enabled = true; runqueue = ts; sched_pending = false } in
    let v' = scrolled-IsSound k true false v in
    let t = head_or k.idle ts in
    Returns-mono (switch_to t k')
      (switch_to-Switched t k' (head-alive k' ts v.idle_alive (λ u h. sym (v'.listed u) ∙ h)))
      (λ k'' (c, q, s, i, e, p, r).
        (c, q, e, p, r, s, Switched-IsSound t k' k'' v' (c, q, s, i, e, p, r)))

pub schedule-Turned :
    (k : Kernel)
    → IsSound k
    → k.present ≡ true
    → k.enabled ≡ true
    → Returns (Turned (scroll_next k.runqueue) k) (schedule k)
unfolding schedule
schedule-Turned k v present enabled =
    if-Returns (Turned (scroll_next k.runqueue) k) k.present (defsched_sched k) (ok k)
      (λ _. rw (defsched_sched-enabled k enabled) (turn-Turned k v))
      (λ absent. absurd (false≢true (sym absent ∙ present)))

pub tick-Turned :
    (k : Kernel)
    → IsSound k
    → k.present ≡ true
    → k.enabled ≡ true
    → Returns (Turned (scroll_next k.runqueue) k) (schedule_on_tick k)
unfolding schedule_on_tick defsched_sys_timer
tick-Turned k v present enabled =
    let P = Turned (scroll_next k.runqueue) k in
    if-Returns P k.present _ _
      (λ _.
        if-Returns P k.enabled _ _ (λ _. rw (defsched_sched-enabled k enabled) (turn-Turned k v))
          (λ off. absurd (false≢true (sym off ∙ enabled))))
      (λ absent. absurd (false≢true (sym absent ∙ present)))

-- Ticks of the system timer, one after the other.
pub ticks : ℕ → Kernel → Result Kernel
ticks zero k = ok k
ticks (suc n) k = schedule_on_tick k >>= ticks n

-- Who runs after the ticks, and what is then the ring.
abbrev pub Runs : Tid → List Tid → Kernel → Type 0
Runs t ts k = (k.current ≡ t) × (k.runqueue ≡ ts)

-- A task behind others, after as many ticks as there are in front of it.
ticks-behind :
    (k : Kernel) (x t : Tid) (a c : List Tid)
    → IsSound k
    → k.present ≡ true
    → k.enabled ≡ true
    → k.runqueue ≡ x ∷ a ++ t ∷ c
    → Returns (Runs t (t ∷ c ++ x ∷ a)) (ticks (length (x ∷ a)) k)
unfolding ticks scroll_next
ticks-behind k x t [] c v p e q =
    Returns-bind (Runs t (t ∷ c ++ x ∷ [])) (schedule_on_tick k) (ticks 0) (tick-Turned k v p e)
      (λ k' s. (s.0 ∙ ap (λ ts. head_or k.idle (scroll_next ts)) q, s.1 ∙ ap scroll_next q))
ticks-behind k x t (y ∷ a) c v p e q =
    Returns-bind (Runs t (t ∷ c ++ x ∷ y ∷ a)) (schedule_on_tick k) (ticks (length (y ∷ a)))
      (tick-Turned k v p e)
      (λ k' s.
        subst (λ ts. Returns (Runs t ts) (ticks (length (y ∷ a)) k'))
          (ap (◌∷◌ t) (append_assoc c (x ∷ []) (y ∷ a)))
          (ticks-behind k' y t a (c ++ x ∷ []) s.6 (s.4 ∙ p) s.2
            (s.1 ∙ ap scroll_next q ∙ append_assoc (y ∷ a) (t ∷ c) (x ∷ []))))

-- How many ticks it takes until a task runs, with those in front of it and those behind it: the
-- head, whether it is the current task or not, is turned past first.
abbrev pub wait_of : List Tid → List Tid → ℕ
wait_of [] c = suc (length c)
wait_of (x ∷ a) c = length (x ∷ a)

-- Every task of the run queue gets the processor: in a sound kernel whose scheduler is present and
-- enabled, after as many ticks as there are tasks in front of it, or after a whole turn of the ring
-- for the head, it is the current one, and the tasks that were in front of it stand behind the
-- others.
pub ticks-Runs :
    (k : Kernel) (t : Tid) (a c : List Tid)
    → IsSound k
    → k.present ≡ true
    → k.enabled ≡ true
    → k.runqueue ≡ a ++ t ∷ c
    → Returns (Runs t (t ∷ c ++ a)) (ticks (wait_of a c) k)
unfolding ticks scroll_next
ticks-Runs k t (x ∷ a) c v p e q = ticks-behind k x t a c v p e q
ticks-Runs k t [] [] v p e q =
    Returns-bind (Runs t (t ∷ [])) (schedule_on_tick k) (ticks 0) (tick-Turned k v p e)
      (λ k' s. (s.0 ∙ ap (λ ts. head_or k.idle (scroll_next ts)) q, s.1 ∙ ap scroll_next q))
ticks-Runs k t [] (y ∷ c) v p e q =
    Returns-bind (Runs t (t ∷ (y ∷ c) ++ [])) (schedule_on_tick k) (ticks (length (y ∷ c)))
      (tick-Turned k v p e)
      (λ k' s.
        subst (λ ts. Returns (Runs t ts) (ticks (length (y ∷ c)) k'))
          (ap (◌∷◌ t) (sym (append-nil (y ∷ c))))
          (ticks-behind k' y t c [] s.6 (s.4 ∙ p) s.2 (s.1 ∙ ap scroll_next q)))

-- A kernel that is paused, with the call of the scheduler noted.
abbrev pub put_off : Kernel → Kernel
put_off k = record k { enabled = false; sched_pending = true }

-- A pause, where the scheduler is present and enabled: `schedule` and a tick of the timer switch no task
-- and only note that they were called, and `resume` then does what `schedule` would have done at
-- once.
pub pause-schedule-resume :
    (k : Kernel)
    → k.present ≡ true
    → k.enabled ≡ true
    → ((pause k >>= schedule) ≡ ok (put_off k))
      × ((pause k >>= schedule_on_tick) ≡ ok (put_off k))
      × ((pause k >>= schedule >>= resume) ≡ schedule k)
unfolding pause schedule resume schedule_on_tick defsched_sys_timer defsched_set_state
    defsched_sched
pause-schedule-resume k p e = (
  ap (λ r. r >>= schedule) (if-true _ _ p) ∙ if-true _ _ p,
  ap (λ r. r >>= schedule_on_tick) (if-true _ _ p) ∙ if-true _ _ p,
  rw (p, e),
)

head-two : (d t x : Tid) (r : List Tid) → head_or d ((r ++ t ∷ []) ++ x ∷ []) ≡ head_or t r
head-two d t x [] = refl
head-two d t x (y ∷ r) = refl

module _ (k : Kernel) (x t : Tid) (r : List Tid) (v : IsSound k) (p : k.present ≡ true)
    (e : k.enabled ≡ true) (q : k.runqueue ≡ x ∷ r)
    (stopped : (k.ts_state t == running) ≡ false) where
  -- A stopped task that is woken is scheduled among the others.
  woken-Turned :
      (reason : ℕ)
      → Returns
          (Turned (scroll_next (woken t running reason k).runqueue) (woken t running reason k))
          (wake_up t running false false reason k)
  unfolding wake_up defsched_wake_up
  woken-Turned reason =
      if-Returns
        (Turned (scroll_next (woken t running reason k).runqueue) (woken t running reason k))
        k.present _ _
        (λ _. rw stopped (
          schedule-Turned (woken t running reason k)
            (woken-IsSound k t running false false reason v refl stopped) p e))
        (λ absent. absurd (false≢true (sym absent ∙ p)))

  -- A stopped task that is woken without priority (reason 0), in a sound kernel whose scheduler is
  -- present and enabled and has a head, goes to the end of the ring, and the next task runs.
  pub wake_up-low :
      Returns
        (λ k'. (k'.runqueue ≡ (r ++ t ∷ []) ++ x ∷ []) × (k'.current ≡ head_or t r))
        (wake_up t running false false 0 k)
  unfolding scroll_next
  wake_up-low =
      Returns-mono (wake_up t running false false 0 k) (woken-Turned 0)
        (λ k' s. (s.1 ∙ turned, s.0 ∙ ap (head_or k.idle) turned ∙ head-two k.idle t x r))
    where
      turned : scroll_next (k.runqueue ++ t ∷ []) ≡ (r ++ t ∷ []) ++ x ∷ []
      turned = ap (λ ts. scroll_next (ts ++ t ∷ [])) q

  -- A stopped task that is woken with priority, in such a kernel, is made the head and turned past
  -- at once: the task at the head goes on, and the one with priority is last in turn.
  pub wake_up-high :
      (reason : ℕ)
      → 0 < reason
      → Returns
          (λ k'. (k'.runqueue ≡ x ∷ r ++ t ∷ []) × (k'.current ≡ x))
          (wake_up t running false false reason k)
  unfolding scroll_next
  wake_up-high reason h =
      Returns-mono (wake_up t running false false reason k) (woken-Turned reason)
        (λ k' s. (s.1 ∙ turned, s.0 ∙ ap (head_or k.idle) turned))
    where
      turned : scroll_next (woken t running reason k).runqueue ≡ x ∷ r ++ t ∷ []
      turned =
          ap (λ b. scroll_next (if b then t ∷ k.runqueue else k.runqueue ++ t ∷ []))
            (lt→ltb 0 reason h)
          ∙ ap (λ ts. ts ++ t ∷ []) q
