-- ===== src/Sched/Waiting.antt =====
-- Tasks that wait and are woken: `signal` and `__signal_all` of microkernel/waitqueue.c.
use mathlib.Core.Bool.{false≢true}
use mathlib.Core.Path.{subst}
use neftis.Base.{
  ℕ, Bool, true, false, ◌&&◌, ◌||◌, ◌≡◌, ◌∙◌, refl, sym, ap, inl, inr, List, [], ◌∷◌, ◌==◌,
  if◌then◌else◌, Bool-cases, ==-refl, ==→eq, has, IsDistinct,
}
use neftis.Sched.{
  Kernel, ok, bug, ◌>>=◌, Tid, schedule, Returns, Returns-bind, Returns-mono, running, update,
  wake_up, defsched_wake_up,
}
use neftis.Sched.WaitQueue.{WaitQueue, signal, wake_all, signal_all_inside}
use neftis.Sched.Critical.{Kept, schedule-Kept, Entered}
use neftis.Sched.Invariant.{IsSound, woken, woken-IsSound}

-- The tasks wait, each once.
pub record AreWaiting (ts : List Tid) (k : Kernel) : Type 0 where
  pub distinct : IsDistinct ts
  pub stopped : (t : Tid) → has t ts ≡ true → (k.ts_state t == running) ≡ false

-- A sound kernel with the same tasks as `k`, but that those of `ts` run.
pub record Woken (ts : List Tid) (k k' : Kernel) : Type 0 where
  pub sound : IsSound k'
  pub running : (t : Tid) → (k'.ts_state t == running) ≡ (has t ts || (k.ts_state t == running))
  pub present : k'.present ≡ k.present

update_running :
    (f : Tid → ℕ) (t u : Tid) → (update f t running u == running) ≡ ((u == t) || (f u == running))
update_running f t u = elim (Bool-cases (u == t)) [ inl e ↦ rw e | inr e ↦ rw e ]

rest-AreWaiting :
    (t : Tid) (ts : List Tid) (k : Kernel) (reason : ℕ)
    → AreWaiting (t ∷ ts) k
    → AreWaiting ts (woken t running reason k)
rest-AreWaiting t ts k reason w = record {
  distinct = w.distinct.1;
  stopped = λ u h. elim (Bool-cases (u == t)) [
    | inl same ↦
        absurd (false≢true (sym w.distinct.0 ∙ sym (ap (λ n. has n ts) (==→eq u t same)) ∙ h))
    | inr other ↦ update_running k.ts_state t u ∙ rw (other, w.stopped u (rw (other, h)))
  ];
}

and_false : (b : Bool) → (b && false) ≡ false
and_false true = refl
and_false false = refl

or_false : (b : Bool) → (b || false) ≡ b
or_false true = refl
or_false false = refl

wake-delayed :
    (t : Tid) (reason : ℕ) (k : Kernel)
    → k.present ≡ true
    → wake_up t running true true reason k ≡ ok (woken t running reason k)
unfolding wake_up defsched_wake_up
wake-delayed t reason k p =
    ap (λ b. if b then defsched_wake_up t running true true reason k else ok k) p
    ∙ ap (λ b. if b then bug else ok (woken t running reason k))
        (and_false (k.ts_state t == running))

all_running :
    (f : Tid → ℕ) (t u : Tid) (ts : List Tid)
    → (has u ts || (update f t running u == running)) ≡ (has u (t ∷ ts) || (f u == running))
all_running f t u ts = rw (update_running f t u) (swap (has u ts) (u == t) _)
  where
    swap : (a b c : Bool) → (a || (b || c)) ≡ ((b || a) || c)
    swap true true c = refl
    swap true false c = refl
    swap false true c = refl
    swap false false c = refl

-- All of them are woken, one after the other.
wake_all-Woken :
    (reason : ℕ) (ts : List Tid) (k : Kernel)
    → IsSound k
    → k.present ≡ true
    → AreWaiting ts k
    → Returns (Woken ts k) (wake_all reason ts k)
unfolding wake_all
wake_all-Woken reason [] k v p w = record { sound = v; running = λ t. refl; present = refl }
wake_all-Woken reason (t ∷ ts) k v p w =
    let k' = woken t running reason k in
    let v' = woken-IsSound k t running true true reason v refl (w.stopped t (rw (==-refl t))) in
    subst (λ s. Returns (Woken (t ∷ ts) k) (s >>= wake_all reason ts))
      (sym (wake-delayed t reason k p))
      (Returns-mono (wake_all reason ts k')
        (wake_all-Woken reason ts k' v' p (rest-AreWaiting t ts k reason w))
        (λ k'' o. record {
          sound = o.sound;
          running = λ u. o.running u ∙ all_running k.ts_state t u ts;
          present = o.present;
        }))

pub Kept-Woken : (ts : List Tid) (k k' k'' : Kernel) → Woken ts k k' → Kept k' k'' → Woken ts k k''
Kept-Woken ts k k' k'' o (v, s, p) = record {
  sound = v;
  running = λ t. ap (λ f. f t == running) s ∙ o.running t;
  present = p ∙ o.present;
}

pub Entered-Woken : (ts : List Tid) (k i k' : Kernel) → Entered k i → Woken ts i k' → Woken ts k k'
Entered-Woken ts k i k' (v, s, p, c) o = record {
  sound = o.sound;
  running = λ t. o.running t ∙ ap (λ f. has t ts || (f t == running)) s;
  present = o.present ∙ p;
}

pub Entered-AreWaiting :
    (ts : List Tid) (k i : Kernel) → Entered k i → AreWaiting ts k → AreWaiting ts i
Entered-AreWaiting ts k i (v, s, p, c) w = record {
  distinct = w.distinct;
  stopped = λ t h. ap (λ f. f t == running) s ∙ w.stopped t h;
}

module _ (reason : ℕ) (n : ℕ) (k : Kernel) (v : IsSound k) (p : k.present ≡ true) where
  wake-now :
      (t : Tid)
      → (k.ts_state t == running) ≡ false
      → wake_up t running false false reason k ≡ schedule (woken t running reason k)
  unfolding wake_up defsched_wake_up
  wake-now t stopped =
      ap (λ b. if b then defsched_wake_up t running false false reason k else ok k) p
      ∙ ap (λ b. if b && true then bug else schedule (woken t running reason k)) stopped

  pub signal_all-Woken :
      (ts : List Tid)
      → AreWaiting ts k
      → Returns
          (λ (wq, k'). (wq.tasks ≡ []) × Woken ts k k')
          (signal_all_inside reason (record { tasks = ts; entries = n }) k)
  unfolding signal_all_inside
  signal_all-Woken [] w = (refl, record { sound = v; running = λ t. refl; present = refl })
  signal_all-Woken (t ∷ ts) w =
      let Q : WaitQueue × Kernel → Type 0 = λ (wq, k'). (wq.tasks ≡ []) × Woken (t ∷ ts) k k' in
      Returns-bind Q (wake_all reason (t ∷ ts) k) _ (wake_all-Woken reason (t ∷ ts) k v p w)
        (λ k' o.
          Returns-bind Q (schedule k') _ (schedule-Kept k' o.sound)
            (λ k'' kept. (refl, Kept-Woken (t ∷ ts) k k' k'' o kept)))

  pub signal-Woken :
      (t : Tid) (ts : List Tid)
      → (k.ts_state t == running) ≡ false
      → Returns
          (λ (wq, k'). (wq.tasks ≡ ts) × Woken (t ∷ []) k k')
          (signal reason (record { tasks = t ∷ ts; entries = n }) k)
  unfolding signal
  signal-Woken t ts stopped =
      let w = woken t running reason k in
      let v' = woken-IsSound k t running false false reason v refl stopped in
      let o : Woken (t ∷ []) k w = record {
        sound = v';
        running = λ u.
            update_running k.ts_state t u
            ∙ sym (ap (λ b. b || (k.ts_state u == running)) (or_false (u == t)));
        present = refl;
      } in
      let Q : WaitQueue × Kernel → Type 0 = λ (wq, k'). (wq.tasks ≡ ts) × Woken (t ∷ []) k k' in
      subst (λ s. Returns Q (s >>= λ k'. ok (record { tasks = ts; entries = n }, k')))
        (sym (wake-now t stopped))
        (Returns-bind Q (schedule w) _ (schedule-Kept w v')
          (λ k' kept. (refl, Kept-Woken (t ∷ []) k w k' o kept)))
