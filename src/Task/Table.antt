-- ===== src/Task/Table.antt =====
-- Registered tasks are found (microkernel/task.c).
use neftis.Base.Run.{Run, ok, fault, out_of_fuel, Returns}
use neftis.Base.{
  ℕ, zero, suc, ◌+◌, ◌%◌, ◌<◌, ◌≡◌, ◌∙◌, refl, sym, ap, Bool, true, false, ◌==◌, leb, lt→ltb,
  Option, none, some, write, write_self, write_other, arith,
}
use neftis.Task.{
  Ptr, null, max_tasks, Tasks, table_idx, table_entry, ensure_tid, find_free_from, find_free_tid,
  get_task, set_task, register_task,
}

-- The first page of the table, which has the identifiers below 1024.
abbrev pub HasFirst : Tasks → (ℕ → Ptr) → Type 0
HasFirst s list = s.task_list_table 0 ≡ some list

table_idx_small : (tid : ℕ) → tid < 1024 → table_idx tid ≡ 0
table_idx_small tid h = omega (arith, h)

not_max : (tid : ℕ) → tid < 1024 → leb max_tasks tid ≡ false
not_max tid h = ground (arith, h)

table_entry_small : (tid : ℕ) → tid < 1024 → table_entry tid ≡ tid
table_entry_small tid h = omega (arith, h)

module _ (s : Tasks) (list : ℕ → Ptr) (first : HasFirst s list) where
  page : (tid : ℕ) → tid < 1024 → s.task_list_table (table_idx tid) ≡ some list
  page tid h = ap s.task_list_table (table_idx_small tid h) ∙ first

  ensure_tid-first : (given : ℕ → Bool) (tid : ℕ) → tid < 1024 → ensure_tid given tid s ≡ ok true s
  unfolding ensure_tid
  ensure_tid-first given tid h = rw (page tid h) refl

  pub get_task-first : (tid : ℕ) → tid < 1024 → get_task tid s ≡ ok (list tid) s
  unfolding get_task
  get_task-first tid h =
      let small : leb max_tasks tid ≡ false = not_max tid h in
      rw (small, page tid h, table_entry_small tid h, lt→ltb tid 1024 h) refl

  -- A round of the search.
  round_free :
      (given : ℕ → Bool) (n i : ℕ)
      → s.task_last_tid ≡ 0
      → i < 1024
      → (list i == null) ≡ true
      → find_free_from given (suc n) i s ≡ ok (some i) s
  unfolding find_free_from
  round_free given n i last h free =
      let curr : (i + s.task_last_tid) % 4294967296 ≡ i = omega (arith, last, h) in
      rw (curr, ensure_tid-first given i h, page i h, table_entry_small i h, lt→ltb i 1024 h, free)
        refl

  round_busy :
      (given : ℕ → Bool) (n i : ℕ)
      → s.task_last_tid ≡ 0
      → i < 1024
      → (list i == null) ≡ false
      → find_free_from given (suc n) i s ≡ find_free_from given n (i + 1) s
  unfolding find_free_from
  round_busy given n i last h busy =
      let curr : (i + s.task_last_tid) % 4294967296 ≡ i = omega (arith, last, h) in
      rw (curr, ensure_tid-first given i h, page i h, table_entry_small i h, lt→ltb i 1024 h, busy)
        refl

  find_free_from-first :
      (given : ℕ → Bool) (d n i k : ℕ)
      → s.task_last_tid ≡ 0
      → d < n
      → i + d ≡ k
      → k < 1024
      → ((j : ℕ) → j < k → (list j == null) ≡ false)
      → (list k == null) ≡ true
      → find_free_from given n i s ≡ ok (some k) s
  find_free_from-first given d zero i k last e at h busy free = elim e [ ]
  find_free_from-first given zero (suc n) i k last e at h busy free =
      let same : i ≡ k = omega (arith, at) in
      round_free given n i last (omega (arith, same, h)) (ap (λ j. list j == null) same ∙ free)
      ∙ ap (λ j. ok (some j) s) same
  find_free_from-first given (suc d) (suc n) i k last e at h busy free =
      round_busy given n i last (omega (arith, at, h)) (busy i (omega (arith, at)))
      ∙ find_free_from-first given d n (i + 1) k last (omega (arith, e)) (omega (arith, at)) h busy
          free

-- What a command returns, where it does.
abbrev pub result : Run Tasks Ptr → Option Ptr
result (ok a s) = some a
result fault = none
result out_of_fuel = none

-- The task has the identifier and is found under it; the others keep theirs.
pub record Registered (task k : ℕ) (s t : Tasks) : Type 0 where
  pub found : result (get_task k t) ≡ some task
  pub others :
      (tid : ℕ)
      → tid < 1024
      → (tid == k) ≡ false
      → result (get_task tid t) ≡ result (get_task tid s)
  pub tid_of : t.ts_tid task ≡ k
  pub same_last : t.task_last_tid ≡ s.task_last_tid

-- The task is put into the first page.
abbrev with_task : Ptr → ℕ → (ℕ → Ptr) → Tasks → Tasks
with_task task k list s = record s {
  task_list_table = write s.task_list_table 0 (some (write list k task));
  ts_tid = write s.ts_tid task k;
}

with_task-Registered :
    (task k : ℕ) (s : Tasks) (list : ℕ → Ptr)
    → HasFirst s list
    → k < 1024
    → Registered task k s (with_task task k list s)
with_task-Registered task k s list first h =
    let t : Tasks = with_task task k list s in
    let after : (tid : ℕ) → tid < 1024 → result (get_task tid t) ≡ some (write list k task tid) =
      λ tid lt. ap result (get_task-first t (write list k task) refl tid lt) in
    record {
      found = after k h ∙ ap some (write_self list k task);
      others = λ tid lt ne.
          after tid lt
          ∙ ap some (write_other list k task tid ne)
          ∙ ap result (sym (get_task-first s list first tid lt));
      tid_of = write_self s.ts_tid task k;
      same_last = refl;
    }

-- `register_task` gives a task the first free identifier, if that is below 1024, where the page of the
-- table is there and `task_last_tid` is 0,
-- which nothing changes: every round looks at one more entry, none is out of bounds, and the search
-- ends. The task is then found by `get_task`, and every other one below 1024 as before.
pub register_task-Registered :
    (given : ℕ → Bool) (task k : ℕ) (s : Tasks) (list : ℕ → Ptr)
    → HasFirst s list
    → s.task_last_tid ≡ 0
    → k < 1024
    → ((j : ℕ) → j < k → (list j == null) ≡ false)
    → (list k == null) ≡ true
    → Returns (λ done t. (done ≡ true) × Registered task k s t) (register_task given task s)
unfolding register_task find_free_tid set_task
register_task-Registered given task k s list first last h busy free =
    let found =
      find_free_from-first s list first given k max_tasks 0 k last (omega (arith, h)) (omega arith)
        h busy free in
    let small : leb max_tasks k ≡ false = not_max k h in
    rw
      (
        found,
        ensure_tid-first s list first given k h,
        small,
        page s list first k h,
        table_entry_small k h,
        table_idx_small k h,
        lt→ltb k 1024 h,
      )
      (refl, with_task-Registered task k s list first h)
