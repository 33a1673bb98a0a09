-- ===== src/Task/Tests.antt =====
-- Runs of the table of tasks.
use neftis.Base.Run.{fault, Returns}
use neftis.Base.{ℕ, ◌<◌, ◌≡◌, refl, true, false, ◌==◌, ltb, if◌then◌else◌, none, some, arith}
use neftis.Task.{Ptr, null, Tasks, get_task, register_task}
use neftis.Task.Table.{Registered, register_task-Registered}

-- The identifiers 0 and 1 are taken.
abbrev first_page : ℕ → Ptr
first_page e = if ltb e 2 then 4096 else 0

abbrev tasks : Tasks
tasks = record {
  task_list_table = λ i. if i == 0 then some first_page else none;
  task_last_tid = 0;
  ts_tid = λ t. 0;
}

taken : (j : ℕ) → j < 2 → (first_page j == null) ≡ false
taken j h = let below : ltb j 2 ≡ true = ground (arith, h) in rw below refl

register_task_example :
    Returns
      (λ done t. (done ≡ true) × Registered 8192 2 tasks t)
      (register_task (λ i. false) 8192 tasks)
register_task_example =
    register_task-Registered (λ i. false) 8192 2 tasks first_page refl refl (omega arith) taken refl

-- The mask lets the index of an entry past the end of its page.
get_task_test : get_task 1024 (record tasks { task_list_table = λ i. some first_page }) ≡ fault
unfolding get_task
get_task_test = refl
