-- ===== src/Msg/Tests.antt =====
-- Runs of the message queues.
use neftis.Base.{true, false, ◌≡◌, refl, none, some, [], ◌∷◌, ◌==◌, if◌then◌else◌, arith}
use neftis.Sched.{Returns, bug}
use neftis.Sched.Event.{Event}
use neftis.Sched.Samples.{three, three-IsSound, waiters, waiters-AreWaiting}
use neftis.Msg.{
  minus_one, ptr_is_valid, Table, new_table, msgq_alloc_id, msgq_release_id, msg_get_ptr,
}
use neftis.Msg.Ids.{HasFree, Allocated, msgq_alloc_id-Allocated, msgq_release_id-HasFree}
use neftis.Msg.Fresh.{from, new_table-HasFree}
use neftis.Msg.Queue.{word_at, Store, Msgq, World, Allocs}
use neftis.Msg.Calls.{msg_request, msg_recv_by_type, msg_send, msg_release, passes_over}
use neftis.Msg.Request.{Ended, Requested, msg_request-fails, msg_request-Requested}
use neftis.Msg.Receive.{Ends, Received, recv-first, recv_by_type-endless}
use neftis.Msg.Send.{Sent, msg_send-Sent}
use neftis.Msg.Syscalls.{write_inside}
use neftis.Msg.Delivery.{Delivered, write_inside-Delivered}
use neftis.Msg.Release.{Released, msg_release-Released}

alloc_id_example :
    Returns (λ (id, t). Allocated new_table (from 63 0) id t) (msgq_alloc_id new_table)
alloc_id_example = msgq_alloc_id-Allocated new_table (from 63 0) new_table-HasFree

-- A table without a free slot; the slot 0 holds the message at 64.
abbrev full : Table
full = record { pending = λ i. 64; last_free = minus_one }

full-HasFree : HasFree full []
unfolding ptr_is_valid
full-HasFree = record { starts = refl; links = tt; distinct = tt; used = λ i h out. refl }

release_id_example : Returns (λ t. HasFree t (7 ∷ [])) (msgq_release_id full 7)
release_id_example = msgq_release_id-HasFree full [] 7 full-HasFree (omega arith) refl

abbrev store : Store
store = record {
  m_ro = λ p. false;
  m_virt = λ p. 0;
  m_body = λ p. 512;
  refs = λ p. 1;
  mb_size = λ p. 0;
  mb_micro_size = λ p. 0;
  mb_bytes = λ p i. 0;
  alive = λ p. true;
  closed = [];
  freed = [];
}

abbrev ready : Event
ready = record { signaled = false; auto_reset = true; wq = waiters }

-- A queue with no message, and one whose table is full and that has two messages come in.
abbrev fresh : Msgq
fresh = record { table = new_table; incoming = []; ready = ready; owner = some 1 }

abbrev busy : Msgq
busy = record { table = full; incoming = 96 ∷ 128 ∷ []; ready = ready; owner = some 2 }

abbrev world : World
world = record {
  kernel = three;
  store = store;
  queue = λ t. if t == 1 then some fresh else some busy;
}

abbrev allocs : Allocs
allocs = record { body = 256; pages = true; msg = 288; object = true; ref = true }

fresh-HasFree : HasFree new_table (0 ∷ from 62 1)
unfolding from
fresh-HasFree = new_table-HasFree

request_example :
    Returns
      (Requested allocs 1 fresh 8192 0 (from 62 1) world fresh-HasFree)
      (msg_request allocs 1 fresh 8192 world)
unfolding ptr_is_valid
request_example =
    msg_request-Requested allocs 1 fresh 8192 0 (from 62 1) world fresh-HasFree refl refl

request-fails_example :
    Ended
      (record allocs { pages = false })
      1
      fresh
      8192
      0
      (from 62 1)
      world
      fresh-HasFree
      false
      (msg_request (record allocs { pages = false }) 1 fresh 8192 world)
request-fails_example =
    msg_request-fails (record allocs { pages = false }) 1 fresh 8192 0 (from 62 1) world
      fresh-HasFree refl

-- An object that is made and cannot be opened.
request_test : msg_request (record allocs { ref = false }) 1 fresh 8192 world ≡ bug
request_test =
    msg_request-fails (record allocs { ref = false }) 1 fresh 8192 0 (from 62 1) world fresh-HasFree
      refl

-- The queue of the first task when two messages have come in.
abbrev filled : Msgq
filled = record fresh { incoming = 96 ∷ 128 ∷ [] }

recv_example :
    Ends
      (Received 1 filled world 96 (128 ∷ []) refl 0 (from 62 1))
      (msg_recv_by_type 9 1 filled 5 minus_one world)
unfolding ptr_is_valid
recv_example = recv-first 1 filled world 96 (128 ∷ []) refl 8 5 0 (from 62 1) fresh-HasFree refl

endless_example : msg_recv_by_type 1000 2 busy 5 6 world ≡ none
unfolding passes_over word_at
endless_example = recv_by_type-endless 1000 2 busy 5 6 world 96 (128 ∷ []) refl refl

busy_0 : msg_get_ptr busy.table 0 ≡ 64
unfolding msg_get_ptr ptr_is_valid
busy_0 = refl

busy_3 : msg_get_ptr busy.table 3 ≡ 64
unfolding msg_get_ptr ptr_is_valid
busy_3 = refl

send_example :
    Returns
      (Sent allocs busy fresh 1 2 0 world 64 busy_0 refl refl (omega arith))
      (msg_send allocs busy 1 fresh 0 world)
send_example =
    msg_send-Sent allocs busy fresh 1 2 0 world 64 busy_0 refl refl (omega arith) refl refl
      three-IsSound refl waiters-AreWaiting refl

release_example : Returns (Released 2 busy 3 world 64 [] busy_3 refl) (msg_release 2 busy 3 world)
release_example =
    msg_release-Released 2 busy 3 world 64 [] busy_3 refl refl full-HasFree (omega arith) refl

delivery_example :
    Returns
      (Delivered allocs (record allocs { msg = 320 }) 1 2 1 0 20 (λ i. i) fresh busy (from 62 1))
      (write_inside allocs (record allocs { msg = 320 }) 2 4096 20 20 (λ i. i) world)
unfolding ptr_is_valid
delivery_example =
    write_inside-Delivered allocs (record allocs { msg = 320 }) 1 2 1 0 4096 20 20 (λ i. i) fresh
      busy (from 62 1) refl refl refl refl refl refl (omega arith) refl fresh-HasFree refl refl refl
      refl refl world refl refl three-IsSound refl waiters-AreWaiting refl
