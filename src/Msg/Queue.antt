-- ===== src/Msg/Queue.antt =====
-- Messages, their bodies and the queues of the tasks: the operations of microkernel/msg.c. A queue
-- belongs to the task whose number it has. What an allocation returns, and how much of a user's
-- buffer can be copied, are arguments; the pages of a body and the regions they are mapped in are
-- not part of the state. What a destroyed body holds stays in the store, as its memory does.
use neftis.Base.{
  ℕ, ◌+◌, ◌-◌, ◌*◌, ◌/◌, ◌%◌, ◌^◌, Bool, true, false, not, ◌&&◌, Option, some, List, ◌∷◌, ◌==◌, ltb,
  leb, if◌then◌else◌, ◌≡◌, ap, ==-refl,
}
use neftis.Sched.{Result, ok, bug, ◌>>=◌, Tid, Kernel}
use neftis.Sched.Event.{Event}
use neftis.Msg.{Ptr, null, Table}

-- The errors of these calls, which the code returns as negative numbers.
pub data Errno : Type 0 where
  ebadf : Errno
  emfile : Errno
  enomem : Errno
  einval : Errno
  eagain : Errno
  efault : Errno
  esrch : Errno
  enosys : Errno

pub data Ret : Type 0 where
  val : ℕ → Ret
  err : Errno → Ret

-- The fields of `struct msg` and `struct msg_body` by address. `m_body` is the body that `m_msg`
-- refers to and `refs` its number of references; `alive` are the bodies that are allocated, and
-- `closed` and `freed` the bodies that were destroyed and the messages that were freed, the last
-- first.
pub record Store : Type 0 where
  pub m_ro : Ptr → Bool
  pub m_virt : Ptr → ℕ
  pub m_body : Ptr → Ptr
  pub refs : Ptr → ℕ
  pub mb_size : Ptr → ℕ
  pub mb_micro_size : Ptr → ℕ
  pub mb_bytes : Ptr → ℕ → ℕ
  pub alive : Ptr → Bool
  pub closed : List Ptr
  pub freed : List Ptr

pub record Msgq : Type 0 where
  pub table : Table
  pub incoming : List Ptr
  pub ready : Event
  pub owner : Option Tid

pub record World : Type 0 where
  pub kernel : Kernel
  pub store : Store
  pub queue : Tid → Option Msgq

abbrev pub put {ℓ} : {A : Type ℓ} → (ℕ → A) → ℕ → A → ℕ → A
put f p v q = if q == p then v else f q

pub put_self {ℓ} : {A : Type ℓ} (f : ℕ → A) (p : ℕ) (v : A) → put f p v p ≡ v
put_self f p v = ap (λ b. if b then v else f p) (==-refl p)

abbrev pub set_queue : Tid → Msgq → World → World
set_queue t q w = record w { queue = put w.queue t (some q) }

-- The 32-bit word of a message at an offset, the lowest byte first: `mb_header` lies over
-- `mb_bytes`, with the type at 0, the link at 4 and the sender at 8.
unfoldable pub word_at : (ℕ → ℕ) → ℕ → ℕ
word_at f i = f i + 256 * f (i + 1) + 65536 * f (i + 2) + 16777216 * f (i + 3)

unfoldable pub set_word : (ℕ → ℕ) → ℕ → ℕ → ℕ → ℕ
set_word f i v j = if leb i j && ltb j (i + 4) then (v / 256 ^ (j - i)) % 256 else f j

abbrev pub msg_type : Store → Ptr → ℕ
msg_type s m = word_at (s.mb_bytes (s.m_body m)) 0

abbrev pub msg_link : Store → Ptr → ℕ
msg_link s m = word_at (s.mb_bytes (s.m_body m)) 4

-- What the allocations of a request return: the body, its pages, the message, the kernel object
-- and the reference to it.
pub record Allocs : Type 0 where
  pub body : Ptr
  pub pages : Bool
  pub msg : Ptr
  pub object : Bool
  pub ref : Bool

-- The body, or NULL. `memset` clears the first 24 bytes: the fields and the first 12 bytes of data.
unfoldable pub msg_body_new : Allocs → ℕ → Store → Ptr × Store
msg_body_new a size s =
    if a.body == null then (null, s) else if ltb 0 size && not a.pages then (null, s) else (
      a.body,
      record s {
        mb_size = put s.mb_size a.body size;
        mb_micro_size = put s.mb_micro_size a.body 0;
        mb_bytes = put s.mb_bytes a.body λ i. if ltb i 12 then 0 else s.mb_bytes a.body i;
        alive = put s.alive a.body true;
      },
    )

-- A body that is destroyed again fails an assertion of `sfree`.
unfoldable pub msg_body_destroy : Ptr → Store → Result Store
msg_body_destroy b s =
    if s.alive b then ok (record s { alive = put s.alive b false; closed = b ∷ s.closed }) else bug

-- `kernel_object_ref_close`: the last reference destroys the object and its body.
unfoldable pub ref_close : Ptr → Store → Result Store
unfolding msg_body_destroy
ref_close b s =
    let n = s.refs b in
    if n == 0
    then msg_body_destroy b s
    else (let s' : Store = record s { refs = put s.refs b (n - 1) } in
        if n == 1 then msg_body_destroy b s' else ok s')

-- `msg_destroy` of a message that refers to a body.
unfoldable pub msg_destroy : Ptr → Store → Result Store
unfolding ref_close
msg_destroy m s = do s' ← ref_close (s.m_body m) s; ok (record s' { freed = m ∷ s'.freed })

-- A message that is just allocated and refers to a body.
unfoldable pub msg_init : Ptr → Ptr → Store → Store
msg_init m b s = record s {
  m_ro = put s.m_ro m false;
  m_virt = put s.m_virt m 0;
  m_body = put s.m_body m b;
  refs = put s.refs b (s.refs b + 1);
}

-- `msg_new_from_msg`: the message, or NULL. An object that is made and cannot be opened is
-- destroyed, and its body with it.
unfoldable pub msg_new_from_msg : Allocs → Ptr → Store → Result (Ptr × Store)
unfolding msg_body_destroy msg_init
msg_new_from_msg a b s =
    if a.msg == null
    then ok (null, s)
    else if not a.object
    then ok (null, record s { freed = a.msg ∷ s.freed })
    else if not a.ref
    then (msg_body_destroy b s >>= λ s'. ok (null, record s' { freed = a.msg ∷ s'.freed }))
    else ok (a.msg, msg_init a.msg b (record s { refs = put s.refs b 0 }))

-- `msg_new_from_ref`
unfoldable pub msg_new_from_ref : Allocs → Ptr → Store → Ptr × Store
unfolding msg_init
msg_new_from_ref a b s =
    if a.msg == null
    then (null, s)
    else if not a.ref
    then (null, record s { freed = a.msg ∷ s.freed })
    else (a.msg, msg_init a.msg b s)
