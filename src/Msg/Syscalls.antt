-- ===== src/Msg/Syscalls.antt =====
-- The system calls of microkernel/msg.c, by the current task. A critical section surrounds each.
use neftis.Base.{ℕ, Bool, Option, none, some}
use neftis.Sched.{Result, ok, bug, ◌>>=◌, Tid, task_atomic}
use neftis.Sched.Event.{event_wait}
use neftis.Msg.Queue.{Errno, enosys, esrch, Ret, val, err, Msgq, World, set_queue, Allocs}
use neftis.Msg.Calls.{
  msg_request, msg_unmap, msg_send, msg_release, msg_recv_by_type, msg_read_micro, msg_write_micro,
}

-- A critical section whose body works on the whole state.
unfoldable pub world_atomic :
    {A : Type 0} → (World → Result (A × World)) → World → Result (A × World)
world_atomic body w = do
  ((a, done), k) ←
      task_atomic (λ k. do (a, done) ← body (record w { kernel = k }); ok ((a, done), done.kernel))
        w.kernel
  ok (a, record done { kernel = k })

-- `task->ts_msgq` of the current task; without a queue a call fails.
abbrev pub with_queue : World → (Tid → Msgq → Result (Ret × World)) → Result (Ret × World)
with_queue w call = elim (w.queue w.kernel.current) [
  | none ↦ ok (err enosys, w)
  | some q ↦ call w.kernel.current q
]

unfoldable pub sys_msg_request : Allocs → ℕ → World → Result (Ret × World)
sys_msg_request a size = world_atomic λ w. with_queue w λ t q. msg_request a t q size w

unfoldable pub sys_msg_unmap : ℕ → World → Result (Ret × World)
sys_msg_unmap id = world_atomic λ w. with_queue w λ t q. ok (msg_unmap q id w)

-- A recipient that does not exist and one without a queue are the same here.
unfoldable pub send_to : Allocs → ℕ → Tid → Msgq → World → Result (Ret × World)
send_to a id tid q w = elim (w.queue tid) [
  | none ↦ ok (err esrch, w)
  | some rq ↦ msg_send a q tid rq id w
]

unfoldable pub sys_msg_send : Allocs → ℕ → Tid → World → Result (Ret × World)
unfolding send_to
sys_msg_send a id tid = world_atomic λ w. with_queue w λ t q. send_to a id tid q w

unfoldable pub sys_msg_release : ℕ → World → Result (Ret × World)
sys_msg_release id = world_atomic λ w. with_queue w λ t q. msg_release t q id w

-- One round of the loop of `sys_msg_recv_by_type`; `none` where the search has not ended.
unfoldable pub recv_round : ℕ → (type link : ℕ) → World → Result (Option Ret × World)
recv_round fuel type link = world_atomic λ w. elim (w.queue w.kernel.current) [
  | none ↦ ok (some (err enosys), w)
  | some q ↦ elim (msg_recv_by_type fuel w.kernel.current q type link w) [
    | none ↦ ok (none, w)
    | some r ↦ r >>= λ (ret, w'). ok (some ret, w')
  ]
]

-- What is between two rounds: the task waits for its event. It goes on with the next round.
unfoldable pub recv_wait : (alloc : Bool) → World → Result World
recv_wait alloc w = elim (w.queue w.kernel.current) [
  | none ↦ ok w
  | some q ↦ event_wait alloc q.ready w.kernel >>= λ (ready, k).
      ok (set_queue w.kernel.current (record q { ready = ready }) (record w { kernel = k }))
]

unfoldable pub sys_msg_read_micro : ℕ → (virt size copied : ℕ) → World → Result (Ret × World)
sys_msg_read_micro id virt size copied =
    world_atomic λ w. with_queue w λ t q. ok (msg_read_micro q id virt size copied w.store, w)

unfoldable pub sys_msg_write_micro :
    ℕ → (virt size copied : ℕ) → (ℕ → ℕ) → World → Result (Ret × World)
sys_msg_write_micro id virt size copied user =
    world_atomic λ w. with_queue w λ t q. ok (msg_write_micro q id virt size copied user w)

-- A queue that is used without a test: NULL is a fault.
abbrev pub queue_of : World → Tid → Result Msgq
queue_of w t = elim (w.queue t) [ none ↦ bug | some q ↦ ok q ]

-- What `sys_msg_write` does with the message that it requested: it sends it when it is written.
unfoldable pub send_written : Allocs → Tid → Tid → ℕ → Ret × World → Result (Ret × World)
send_written a t tid id (err e, w) = ok (err e, w)
send_written a t tid id (val n, w) = do
  q ← queue_of w t
  rq ← queue_of w tid
  (sent, w') ← msg_send a q tid rq id w
  ok (elim sent [ err e ↦ err e | val _ ↦ val id ], w')

unfoldable pub write_and_send :
    Allocs → Tid → Tid → ℕ → (virt size copied : ℕ) → (ℕ → ℕ) → World → Result (Ret × World)
write_and_send a t tid id virt size copied user w = elim (w.queue tid) [
  | none ↦ ok (err esrch, w)
  | some _ ↦
      queue_of w t >>= λ q. send_written a t tid id (msg_write_micro q id virt size copied user w)
]

-- It is released whatever came of it.
unfoldable pub release_after : Tid → ℕ → Ret × World → Result (Ret × World)
release_after t id (ret, w) = do q ← queue_of w t; (_, w') ← msg_release t q id w; ok (ret, w')

unfoldable pub write_requested :
    Allocs → Tid → Tid → (virt size copied : ℕ) → (ℕ → ℕ) → Ret × World → Result (Ret × World)
write_requested a t tid virt size copied user (err e, w) = ok (err e, w)
write_requested a t tid virt size copied user (val id, w) =
    write_and_send a t tid id virt size copied user w >>= release_after t id

unfoldable pub write_inside :
    (a b : Allocs) → Tid → (virt size copied : ℕ) → (ℕ → ℕ) → World → Result (Ret × World)
unfolding write_requested
write_inside a b tid virt size copied user w = do
  q ← queue_of w w.kernel.current
  requested ← msg_request a w.kernel.current q 0 w
  write_requested b w.kernel.current tid virt size copied user requested

unfoldable pub sys_msg_write :
    (a b : Allocs) → Tid → (virt size copied : ℕ) → (ℕ → ℕ) → World → Result (Ret × World)
unfolding write_inside
sys_msg_write a b tid virt size copied user =
    world_atomic (write_inside a b tid virt size copied user)

-- A round of `sys_msg_read_by_type`: the search has not ended, the receive failed, or the message
-- was read, and released after that.
pub data Round : Type 0 where
  unending : Round
  failed : Errno → Round
  read : Ret → Round

unfoldable pub read_found : Tid → (virt size copied : ℕ) → Ret × World → Result (Round × World)
read_found t virt size copied (err e, w) = ok (failed e, w)
read_found t virt size copied (val id, w) = do
  q ← queue_of w t
  (_, w') ← msg_release t q id w
  ok (read (msg_read_micro q id virt size copied w.store), w')

unfoldable pub read_round : ℕ → (type link virt size copied : ℕ) → World → Result (Round × World)
unfolding read_found
read_round fuel type link virt size copied = world_atomic λ w. elim (w.queue w.kernel.current) [
  | none ↦ ok (failed enosys, w)
  | some q ↦ elim (msg_recv_by_type fuel w.kernel.current q type link w) [
    | none ↦ ok (unending, w)
    | some r ↦ r >>= read_found w.kernel.current virt size copied
  ]
]

-- What the call returns after its last round: 0 if the receive failed.
unfoldable pub read_result : Round → Option Ret
read_result unending = none
read_result (failed e) = some (val 0)
read_result (read r) = some r
