-- ===== src/Task.antt =====
-- The table of tasks of microkernel/task.c on a machine with words of 32 bits: a page of pointers to pages
-- with 1024 pointers to tasks each. A read or a write behind the end of a page is a fault. Whether
-- a page can be allocated for an index of the table is an argument.
mod Table
mod Tests
use neftis.Base.Run.{ok, fault, Cmd, pure, and_then}
use neftis.Base.{
  ℕ, zero, suc, ◌+◌, ◌-◌, ◌/◌, ◌%◌, Bool, true, false, not, ◌==◌, leb, ltb, if◌then◌else◌, Option,
  none, some, write,
}

abbrev pub Ptr : Type 0
Ptr = ℕ

abbrev pub null : Ptr
null = 0

-- `MAX_TASKS`
abbrev pub max_tasks : ℕ
max_tasks = 1048576

-- `task_list_table`, `task_last_tid` and the field `ts_tid` of the tasks.
pub record Tasks : Type 0 where
  pub task_list_table : ℕ → Option (ℕ → Ptr)
  pub task_last_tid : ℕ
  pub ts_tid : Ptr → ℕ

-- The shift has the bits of an index, and the mask those of a page.
abbrev pub table_idx : ℕ → ℕ
table_idx tid = (tid / 1024) % 4096

abbrev pub table_entry : ℕ → ℕ
table_entry tid = tid % 4096

-- `task_list[table_entry]`
abbrev pub read_entry : Option (ℕ → Ptr) → ℕ → Cmd Tasks Ptr
read_entry none entry s = fault
read_entry (some list) entry s = if ltb entry 1024 then ok (list entry) s else fault

abbrev pub write_entry : Option (ℕ → Ptr) → ℕ → ℕ → Ptr → Cmd Tasks (Unit {0})
write_entry none idx entry task s = fault
write_entry (some list) idx entry task s =
    if ltb entry 1024
    then ok tt
        (record s { task_list_table = write s.task_list_table idx (some (write list entry task)) })
    else fault

-- A page is allocated if the table has none.
abbrev pub ensure_page : Bool → Option (ℕ → Ptr) → ℕ → Cmd Tasks Bool
ensure_page given (some list) idx s = ok true s
ensure_page true none idx s =
    ok true (record s { task_list_table = write s.task_list_table idx (some (λ e. null)) })
ensure_page false none idx s = ok false s

-- `__ensure_tid`, and what the loop of `__find_free_tid` does with the table.
unfoldable pub ensure_tid : (ℕ → Bool) → ℕ → Cmd Tasks Bool
ensure_tid given tid s =
    ensure_page (given (table_idx tid)) (s.task_list_table (table_idx tid)) (table_idx tid) s

-- `__find_free_tid`, `none` for the error, with `n` rounds left.
unfoldable pub find_free_from : (ℕ → Bool) → ℕ → ℕ → Cmd Tasks (Option ℕ)
unfolding ensure_tid
find_free_from given zero i s = ok none s
find_free_from given (suc n) i s =
    let curr = (i + s.task_last_tid) % 4294967296 in
    and_then (ensure_tid given curr s) (λ there t.
      if not there
      then ok none t
      else and_then (read_entry (t.task_list_table (table_idx curr)) (table_entry curr) t)
          (λ task w. if task == null then ok (some curr) w else find_free_from given n (i + 1) w))

unfoldable pub find_free_tid : (ℕ → Bool) → Cmd Tasks (Option ℕ)
unfolding find_free_from
find_free_tid given = find_free_from given max_tasks 0

abbrev pub get_entry : Option (ℕ → Ptr) → ℕ → Cmd Tasks Ptr
get_entry none entry s = ok null s
get_entry (some list) entry s = read_entry (some list) entry s

unfoldable pub get_task : ℕ → Cmd Tasks Ptr
get_task tid s =
    if leb max_tasks tid
    then ok null s
    else get_entry (s.task_list_table (table_idx tid)) (table_entry tid) s

-- `set_task`: whether it was done.
abbrev pub set_entry : Option (ℕ → Ptr) → ℕ → ℕ → Ptr → Cmd Tasks Bool
set_entry none idx entry task s = ok false s
set_entry (some list) idx entry task s =
    and_then (write_entry (some list) idx entry task s) (λ _. pure true)

unfoldable pub set_task : ℕ → Ptr → Cmd Tasks Bool
set_task tid task s =
    if leb max_tasks tid
    then ok false s
    else set_entry (s.task_list_table (table_idx tid)) (table_idx tid) (table_entry tid) task s

-- `__register_task_with_tid`: whether it was done.
unfoldable pub register_task_with_tid : (ℕ → Bool) → Ptr → ℕ → Cmd Tasks Bool
unfolding ensure_tid get_task set_task
register_task_with_tid given task tid s = and_then (ensure_tid given tid s) (λ there t.
    if not there
    then ok false t
    else and_then (get_task tid t) (λ old w.
      if not (old == null) then ok false w else and_then (set_task tid task w) (λ _. pure true)))

-- `register_task`: whether it was done.
abbrev pub register_free : (ℕ → Bool) → Ptr → Option ℕ → Cmd Tasks Bool
register_free given task none s = ok false s
register_free given task (some tid) s = and_then (ensure_tid given tid s) (λ there t.
    if not there
    then ok false t
    else set_task tid task (record t { ts_tid = write t.ts_tid task tid }))

unfoldable pub register_task : (ℕ → Bool) → Ptr → Cmd Tasks Bool
unfolding find_free_tid ensure_tid set_task
register_task given task s = and_then (find_free_tid given s) (register_free given task)

-- `MAX_KERNEL_THREADS` is 16.
abbrev pub get_kernel_thread : ℕ → Cmd Tasks Ptr
get_kernel_thread tid s = if leb 16 tid then ok null s else get_task tid s

abbrev pub get_userspace_task : ℕ → Cmd Tasks Ptr
get_userspace_task pid s = if ltb pid 16 then ok null s else get_task (pid - 16) s
