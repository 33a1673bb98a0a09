-- ===== src/Msg/Calls.antt =====
-- The operations on a queue of microkernel/msg.c, for a task `t` whose queue is `q`.
use neftis.Base.{
  ℕ, zero, suc, Bool, true, not, ◌&&◌, Option, none, some, List, [], ◌∷◌, ◌++◌, ◌==◌, ltb,
  if◌then◌else◌, erase,
}
use neftis.Sched.{Result, ok, ◌>>=◌, Tid, update}
use neftis.Sched.Event.{event_signal}
use neftis.Msg.{Ptr, null, minus_one, Table, msgq_alloc_id, msgq_release_id, msg_get_ptr}
use neftis.Msg.Queue.{
  ebadf, emfile, enomem, einval, eagain, efault, Ret, val, err, Store, Msgq, World, put, set_queue,
  set_word, msg_type, msg_link, Allocs, msg_body_new, msg_body_destroy, msg_destroy,
  msg_new_from_msg, msg_new_from_ref,
}

-- `mq_pending[id] = msg`
abbrev pub set_pending : ℕ → Ptr → Table → Table
set_pending id m t = record t { pending = update t.pending id m }

-- The label `fail` of `__msg_request`.
unfoldable pub request_fail : Tid → Msgq → Table → ℕ → World → Result (Ret × World)
request_fail t q table id w = do
  released ← msgq_release_id table id
  ok (err enomem, set_queue t (record q { table = released }) w)

-- The message with its body is made.
unfoldable pub request_msg : Allocs → Tid → Msgq → Table → ℕ → Ptr → World → Result (Ret × World)
request_msg a t q table id body w = msg_new_from_msg a body w.store >>= λ (msg, s).
    if msg == null
    then (msg_body_destroy body s >>= λ s'. request_fail t q table id (record w { store = s' }))
    else ok (
      val id,
      set_queue t (record q { table = set_pending id msg table }) (record w { store = s }),
    )

-- The rest of `__msg_request` with the identifier `id`.
unfoldable pub request_with : Allocs → Tid → Msgq → ℕ → Table → ℕ → World → Result (Ret × World)
request_with a t q size table id w =
    let (body, s) = msg_body_new a size w.store in
    if body == null
    then request_fail t q table id (record w { store = s })
    else request_msg a t q table id body (record w { store = s })

unfoldable pub msg_request : Allocs → Tid → Msgq → ℕ → World → Result (Ret × World)
msg_request a t q size w = do
  (got, table) ← msgq_alloc_id q.table
  elim got [ none ↦ ok (err emfile, w) | some id ↦ request_with a t q size table id w ]

-- `__msg_unmap_m`
unfoldable pub msg_unmap_m : Ptr → Store → Ret × Store
msg_unmap_m m s =
    if ltb 0 (s.mb_size (s.m_body m)) && not (s.m_virt m == 0)
    then (err einval, s)
    else (val 0, record s { m_virt = put s.m_virt m 0 })

unfoldable pub msg_unmap : Msgq → ℕ → World → Ret × World
unfolding msg_unmap_m
msg_unmap q id w =
    let m = msg_get_ptr q.table id in
    if m == null
    then (err ebadf, w)
    else (let (r, s) = msg_unmap_m m w.store in (r, record w { store = s }))

-- MSG_SENDER (new_msg) = …
unfoldable pub set_sender : Ptr → Option Tid → Store → Store
set_sender m owner s =
    let sender : ℕ = elim owner [ some t ↦ t | none ↦ minus_one ] in
    let b = s.m_body m in
    record s { mb_bytes = put s.mb_bytes b (set_word (s.mb_bytes b) 8 sender) }

-- To the task `r`, whose queue is `rq`.
unfoldable pub msg_send : Allocs → Msgq → Tid → Msgq → ℕ → World → Result (Ret × World)
msg_send a q r rq id w =
    let m = msg_get_ptr q.table id in
    if m == null
    then ok (err ebadf, w)
    else (let (new, s) = msg_new_from_ref a (w.store.m_body m) w.store in
        if new == null
        then ok (err enomem, record w { store = s })
        else (let s' = set_sender new q.owner (record s { m_ro = put s.m_ro new true }) in
            event_signal rq.ready w.kernel >>= λ (ready, k). ok (
              val 0,
              set_queue r (record rq { incoming = rq.incoming ++ new ∷ []; ready = ready })
                  (record w { kernel = k; store = s' }),
            )))

unfoldable pub msg_release : Tid → Msgq → ℕ → World → Result (Ret × World)
msg_release t q id w =
    let m = msg_get_ptr q.table id in
    if m == null
    then ok (err ebadf, w)
    else (let s = if not (w.store.m_virt m == 0) then (msg_unmap_m m w.store).1 else w.store in
        msgq_release_id q.table id >>= λ table. msg_destroy m s >>= λ s'.
        ok (val 0, set_queue t (record q { table = table }) (record w { store = s' })))

-- Whether the loop of `__msg_recv_by_type` goes on past a message; MSG_TYPE_ANY and MSG_LINK_ANY
-- are -1.
unfoldable pub passes_over : ℕ → ℕ → Store → Ptr → Bool
passes_over type link s m =
    (not (type == minus_one) && not (msg_type s m == type))
    && (not (link == minus_one) && not (msg_link s m == link))

-- How the search ended, if it did.
pub data Search : Type 0 where
  found : Ptr → Search
  no_message : Search
  searching : Search

-- The ring from `msg` on; LIST_NEXT is the ring turned by one.
unfoldable pub search_ring : ℕ → ℕ → ℕ → Store → List Ptr → Search
search_ring fuel type link s [] = no_message
search_ring zero type link s (m ∷ ms) = searching
search_ring (suc fuel) type link s (m ∷ ms) =
    let rest = search_ring fuel type link s (ms ++ m ∷ []) in
    if passes_over type link s m then rest else found m

-- What follows the search with the message `m`.
unfoldable pub recv_found : Tid → Msgq → Ptr → World → Result (Ret × World)
recv_found t q m w = do
  (got, table) ← msgq_alloc_id q.table
  elim got [
    | none ↦ ok (err emfile, w)
    | some id ↦ ok (
      val id,
      set_queue t (record q { table = set_pending id m table; incoming = erase m q.incoming }) w,
    )
  ]

-- `none` where the loop has not ended within the fuel.
unfoldable pub msg_recv_by_type :
    ℕ → Tid → Msgq → (type link : ℕ) → World → Option (Result (Ret × World))
msg_recv_by_type fuel t q type link w = elim (search_ring fuel type link w.store q.incoming) [
  | found m ↦ some (recv_found t q m w)
  | no_message ↦ some (ok (err eagain, w))
  | searching ↦ none
]

unfoldable pub msg_recv : ℕ → Tid → Msgq → World → Option (Result (Ret × World))
unfolding msg_recv_by_type
msg_recv fuel t q w = msg_recv_by_type fuel t q minus_one minus_one w

-- `virt` is the user's address and `copied` what `copy2virt` returns; the user gets the first bytes
-- of the body.
unfoldable pub msg_read_micro : Msgq → ℕ → (virt size copied : ℕ) → Store → Ret
msg_read_micro q id virt size copied s =
    let m = msg_get_ptr q.table id in
    let b = s.m_body m in
    let size' : ℕ = if ltb (s.mb_micro_size b) size then s.mb_micro_size b else size in
    if m == null
    then err ebadf
    else if not (virt == 0) && ltb copied size'
    then err efault
    else val size'

-- MSG_MICRO_SIZE
abbrev pub micro_size : ℕ
micro_size = 256

-- The user's bytes are `user`, of which `copy2phys` copies `copied`, and not more than asked for.
unfoldable pub msg_write_micro : Msgq → ℕ → (virt size copied : ℕ) → (ℕ → ℕ) → World → Ret × World
msg_write_micro q id virt size copied user w =
    let s = w.store in
    let m = msg_get_ptr q.table id in
    let b = s.m_body m in
    let size' : ℕ = if ltb micro_size size then micro_size else size in
    let sized : Store = record s { mb_micro_size = put s.mb_micro_size b size' } in
    let written : Store = record sized {
      mb_bytes =
          put s.mb_bytes b λ i. if ltb i copied && ltb i size' then user i else s.mb_bytes b i;
    } in
    if m == null
    then (err ebadf, w)
    else if virt == 0
    then (val size', record w { store = sized })
    else (if ltb copied size' then err efault else val size', record w { store = written })
