-- ===== src/Msg/Passing.antt =====
-- A message that is written and sent: what `sys_msg_write` of microkernel/msg.c does with the message
-- that it requested.
use mathlib.Core.Path.{subst}
use neftis.Base.{
  ℕ, ◌+◌, ◌-◌, ◌<◌, true, false, not, ◌||◌, ◌&&◌, ◌≡◌, ◌∙◌, sym, ap, none, some, ◌==◌, ltb, leb,
  if◌then◌else◌, arith, if-false, if-true,
}
use neftis.Sched.{Result, ok, bug, ◌>>=◌, Tid, Returns, Returns-bind}
use neftis.Sched.Invariant.{IsSound}
use neftis.Sched.Waiting.{AreWaiting}
use neftis.Msg.{Ptr, null, ptr_is_valid, Table, msg_get_ptr, is_negative, pending_count}
use neftis.Msg.Queue.{Ret, val, err, esrch, Store, Msgq, World, put, put_self, word_at, Allocs}
use neftis.Msg.Calls.{micro_size, msg_write_micro, msg_send}
use neftis.Msg.Send.{Queued, msg_send-Sent}
use neftis.Msg.Release.{IsDestroyed}
use neftis.Msg.Syscalls.{queue_of, send_written, write_and_send}

pub get_ptr-used :
    (t : Table) (id : ℕ)
    → id < 64
    → ptr_is_valid (t.pending id) ≡ true
    → msg_get_ptr t id ≡ t.pending id
unfolding msg_get_ptr
get_ptr-used t id small valid = if-false _ _ (inside id small) ∙ if-true _ _ valid
  where
    inside : (id : ℕ) → id < 64 → (is_negative id || leb pending_count id) ≡ false
    inside id h = ground arith

-- The store with the user's bytes.
pub written : ℕ → ℕ → (ℕ → ℕ) → Ptr → Store → Store
written size copied user m s = record s {
  mb_micro_size = put s.mb_micro_size (s.m_body m) size;
  mb_bytes =
      put s.mb_bytes (s.m_body m)
        λ i. if ltb i copied && ltb i size then user i else s.mb_bytes (s.m_body m) i;
}

pub write_whole :
    (q : Msgq) (id virt size copied : ℕ) (user : ℕ → ℕ) (w : World) (m : Ptr)
    → msg_get_ptr q.table id ≡ m
    → (m == null) ≡ false
    → (virt == 0) ≡ false
    → ltb micro_size size ≡ false
    → ltb copied size ≡ false
    → msg_write_micro q id virt size copied user w
      ≡ (val size, record w { store = written size copied user m w.store })
unfolding msg_write_micro written
write_whole q id virt size copied user w m named there given small whole =
    rw (named, there, given, small, whole)

pub queue_of-some : (w : World) (t : Tid) (q : Msgq) → w.queue t ≡ some q → queue_of w t ≡ ok q
queue_of-some w t q e = ap (λ o. elim o [ none ↦ bug | some q ↦ ok q ]) e

-- The message refers to the body, which is allocated and has as many references, and the user's data
-- but for the sender's word.
pub record HasData (new body : Ptr) (count size o : ℕ) (user : ℕ → ℕ) (s : Store) : Type 0 where
  pub there : s.alive body ≡ true
  pub counted : s.refs body ≡ count
  pub refers : s.m_body new ≡ body
  pub length : s.mb_micro_size body ≡ size
  pub bytes :
      (i : ℕ) → ltb i size ≡ true → (leb 8 i && ltb i 12) ≡ false → s.mb_bytes body i ≡ user i
  pub sender : word_at (s.mb_bytes body) 8 ≡ o

-- The other of two messages with the body is freed.
pub HasData-kept :
    (new body : Ptr) (size o : ℕ) (user : ℕ → ℕ) (m : Ptr) (s s' : Store)
    → s.m_body m ≡ body
    → IsDestroyed m s s'
    → HasData new body 2 size o user s
    → HasData new body 1 size o user s'
HasData-kept new body size o user m s s' same d h =
    let (bodies, bytes, lengths) = d.data_kept in
    let two : s.refs (s.m_body m) ≡ 2 = ap s.refs same ∙ h.counted in
    record {
      there = ap s'.alive (sym same) ∙ d.alive ∙ ap (ltb 1) two;
      counted = ap s'.refs (sym same) ∙ d.refs ∙ ap (λ n. n - 1) two;
      refers = ap (λ f. f new) bodies ∙ h.refers;
      length = ap (λ f. f body) lengths ∙ h.length;
      bytes = λ i c beside. ap (λ f. f body i) bytes ∙ h.bytes i c beside;
      sender = ap (λ f. word_at (f body) 8) bytes ∙ h.sender;
    }

within :
    (i size copied : ℕ)
    → ltb copied size ≡ false
    → ltb i size ≡ true
    → (ltb i copied && ltb i size) ≡ true
within i size copied whole h = ground arith

module _ (b : Allocs) (t r o : Tid) (x virt size copied : ℕ) (user : ℕ → ℕ) (rq : Msgq)
    (given : (virt == 0) ≡ false) (small : ltb micro_size size ≡ false)
    (whole : ltb copied size ≡ false) (apart : (t == r) ≡ false) (made : (b.msg == null) ≡ false)
    (opened : b.ref ≡ true) (word : o < 4294967296)
    (set : (rq.ready.signaled && not rq.ready.auto_reset) ≡ false) where
  module _ (w : World) (q : Msgq) (m : Ptr) (tq : w.queue t ≡ some q) (rrq : w.queue r ≡ some rq)
      (there : (m == null) ≡ false) (named : msg_get_ptr q.table x ≡ m) (owned : q.owner ≡ some o)
      (fresh : (m == b.msg) ≡ false) (alive : w.store.alive (w.store.m_body m) ≡ true)
      (single : w.store.refs (w.store.m_body m) ≡ 1) (v : IsSound w.kernel)
      (p : w.kernel.present ≡ true) (waiting : AreWaiting rq.ready.wq.tasks w.kernel) where
    -- The message is written and sent; the sender's queue stays.
    abbrev Passed : Ret × World → Type 0
    Passed (ret, w') =
        (ret ≡ val x)
        × Queued b.msg rq (w'.queue r)
        × (w'.queue t ≡ some q)
        × (w'.store.m_body m ≡ w.store.m_body m)
        × HasData b.msg (w.store.m_body m) 2 size o user w'.store

    filled : World
    filled = record w { store = written size copied user m w.store }

    sends : write_and_send b t r x virt size copied user w ≡ (
        msg_send b q r rq x filled >>= λ (sent, w').
        ok (elim sent [ err e ↦ err e | val _ ↦ val x ], w'))
    unfolding write_and_send send_written filled
    sends =
        let send : Result Msgq → Result Msgq → Result (Ret × World) = λ s d. s >>= λ q. d >>= λ rq.
        msg_send b q r rq x filled >>= λ (sent, w').
        ok (elim sent [ err e ↦ err e | val _ ↦ val x ], w') in
        ap
          (λ o. elim o [
            | none ↦ ok (err esrch, w)
            | some _ ↦ queue_of w t >>= λ q.
                send_written b t r x (msg_write_micro q x virt size copied user w)
          ])
          rrq
        ∙ ap (λ s. s >>= λ q. send_written b t r x (msg_write_micro q x virt size copied user w))
            (queue_of-some w t q tq)
        ∙ ap (send_written b t r x)
            (write_whole q x virt size copied user w m named there given small whole)
        ∙ ap (λ s. send s (queue_of w r)) (queue_of-some w t q tq)
        ∙ ap (λ s. send (ok q) s) (queue_of-some w r rq rrq)

    pub passes : Returns Passed (write_and_send b t r x virt size copied user w)
    unfolding filled written
    passes = subst (Returns Passed) (sym sends) (
        Returns-bind Passed (msg_send b q r rq x filled) _
          (msg_send-Sent b q rq r o x filled m named there owned word made opened v p waiting set)
          (λ (sent, w') (done, queued, copy, woken, frame). (
            ap (λ s. elim s [ err e ↦ err e | val _ ↦ val x ]) done,
            queued,
            frame t apart ∙ tq,
            copy.others m fresh,
            record {
              there = ap (λ f. f (w.store.m_body m)) copy.alive ∙ alive;
              counted = copy.counted ∙ ap (λ n. n + 1) single;
              refers = copy.same_body;
              length =
                  ap (λ f. f (w.store.m_body m)) copy.length
                  ∙ put_self w.store.mb_micro_size (w.store.m_body m) size;
              bytes = λ i h beside.
                  copy.bytes i beside
                  ∙ ap (λ f. f i) (put_self w.store.mb_bytes (w.store.m_body m) _)
                  ∙ if-true _ _ (within i size copied whole h);
              sender = copy.sender;
            },
          )))
