-- ===== src/Msg.antt =====
-- Message queues: microkernel/msg.c. The table of a task's messages here, the operations in the
-- children.
pub mod Ids
pub mod Fresh
mod Tests
pub mod Queue
pub mod Calls
pub mod Request
pub mod Receive
pub mod Send
pub mod Release
pub mod Syscalls
pub mod Passing
pub mod Delivery
use neftis.Base.{
  ℕ, zero, suc, ◌+◌, ◌*◌, ◌/◌, ◌%◌, Bool, true, false, ◌||◌, Option, none, some, ◌==◌, ltb, leb,
  if◌then◌else◌,
}
use neftis.Sched.{Result, ok, bug, ◌>>=◌, update}

-- An address, a word of 32 bits.
abbrev pub Ptr : Type 0
Ptr = ℕ

abbrev pub null : Ptr
null = 0

-- -1 as an `int` of 32 bits.
abbrev pub minus_one : ℕ
minus_one = 4294967295

-- MSG_PENDING_COUNT
abbrev pub pending_count : ℕ
pending_count = 64

-- MSG_PTR_IS_VALID, MSG_PTR_GET_IDX (with an arithmetic shift) and MSG_PTR_IDX: a slot of the table
-- holds a message's address, NULL while one is made, or the index of a free slot with bit 0 set.
unfoldable pub ptr_is_valid : Ptr → Bool
ptr_is_valid p = p % 2 == 0

unfoldable pub ptr_get_idx : Ptr → ℕ
ptr_get_idx p = if ltb p 2147483648 then p / 2 else p / 2 + 2147483648

unfoldable pub ptr_idx : ℕ → Ptr
ptr_idx i = (i * 2) % 4294967296 + 1

-- `mq_pending` and `mq_last_free_msg` of `struct msgq`.
pub record Table : Type 0 where
  pub pending : ℕ → Ptr
  pub last_free : ℕ

-- A read or a write past the table is a bug.
abbrev pub in_table : {A : Type 0} → ℕ → Result A → Result A
in_table id r = if ltb id pending_count then r else bug

-- `__msgq_alloc_id`; without a free slot it returns -1.
unfoldable pub msgq_alloc_id : Table → Result (Option ℕ × Table)
msgq_alloc_id t =
    let id = t.last_free in
    if id == minus_one
    then ok (none, t)
    else in_table id (
        if ptr_is_valid (t.pending id)
        then bug
        else ok (
          some id,
          record { pending = update t.pending id null; last_free = ptr_get_idx (t.pending id) },
        ))

-- `__msgq_release_id`
unfoldable pub msgq_release_id : Table → ℕ → Result Table
msgq_release_id t id = in_table id (
    if ptr_is_valid (t.pending id)
    then ok (record { pending = update t.pending id (ptr_idx t.last_free); last_free = id })
    else bug)

-- `id < 0` for an `int`.
abbrev pub is_negative : ℕ → Bool
is_negative id = leb 2147483648 id

-- `__msg_get_ptr`; NULL if there is no such message.
unfoldable pub msg_get_ptr : Table → ℕ → Ptr
msg_get_ptr t id =
    if is_negative id || leb pending_count id
    then null
    else if ptr_is_valid (t.pending id)
    then t.pending id
    else null

-- The loop of `msgq_new`, from the slot `i` on, and its last write.
unfoldable pub chain_slots : ℕ → ℕ → (ℕ → Ptr) → ℕ → Ptr
unfolding ptr_idx
chain_slots zero i f = update f i (ptr_idx minus_one)
chain_slots (suc n) i f = chain_slots n (suc i) (update f i (ptr_idx (i + 1)))

unfoldable pub new_table : Table
unfolding chain_slots
new_table = record { pending = chain_slots 63 0 (λ i. null); last_free = 0 }
