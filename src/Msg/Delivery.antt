-- ===== src/Msg/Delivery.antt =====
-- `sys_msg_write` of microkernel/msg.c inside its critical section: a message from its request to
-- its arrival.
use mathlib.Core.Path.{subst}
use neftis.Base.{
  ℕ, ◌<◌, true, false, not, ◌&&◌, ◌≡◌, ◌∙◌, sym, ap, inl, inr, Option, none, some, List, ◌∷◌, ◌==◌,
  ltb, Option-cases, ==-sym,
}
use neftis.Sched.{Result, ok, ◌>>=◌, Tid, Returns, Returns-bind}
use neftis.Sched.Invariant.{IsSound}
use neftis.Sched.Waiting.{AreWaiting}
use neftis.Msg.{null, ptr_is_valid}
use neftis.Msg.Ids.{HasFree}
use neftis.Msg.Queue.{Ret, val, Msgq, World, Allocs}
use neftis.Msg.Calls.{micro_size, msg_request, msg_release}
use neftis.Msg.Request.{Holds, Requested, lacks, msg_request-Requested}
use neftis.Msg.Send.{Queued}
use neftis.Msg.Release.{Freed, msg_release-Released}
use neftis.Msg.Syscalls.{queue_of, write_and_send, release_after, write_requested, write_inside}
use neftis.Msg.Passing.{HasData, HasData-kept, passes, get_ptr-used, queue_of-some}

-- The recipient has the message as its last one, the sender's queue is as before, with the same
-- first free identifier, the body is allocated and the message alone refers to it, and the data is
-- the user's.
abbrev pub Delivered :
    (a b : Allocs) → (t r o x size : ℕ) → (ℕ → ℕ) → (q rq : Msgq) → List ℕ → Ret × World → Type 0
Delivered a b t r o x size user q rq xs (ret, w) =
    (ret ≡ val x)
    × Queued b.msg rq (w.queue r)
    × Freed x xs q (w.queue t)
    × HasData b.msg a.body 1 size o user w.store

module _ (a b : Allocs) (t r o : Tid) (x virt size copied : ℕ) (user : ℕ → ℕ) (q rq : Msgq)
    (xs : List ℕ) (given : (virt == 0) ≡ false) (small : ltb micro_size size ≡ false)
    (whole : ltb copied size ≡ false) (apart : (t == r) ≡ false) (made : (b.msg == null) ≡ false)
    (opened : b.ref ≡ true) (word : o < 4294967296)
    (set : (rq.ready.signaled && not rq.ready.auto_reset) ≡ false) (v : HasFree q.table (x ∷ xs))
    (owned : q.owner ≡ some o) (enough : lacks a 0 ≡ false) (valid : ptr_is_valid a.msg ≡ true)
    (there : (a.msg == null) ≡ false) (fresh : (a.msg == b.msg) ≡ false) where
  Final : Ret × World → Type 0
  Final = Delivered a b t r o x size user q rq xs

  moved :
      (q1 : Msgq) (o : Option Msgq) → q1.incoming ≡ q.incoming → Freed x xs q1 o → Freed x xs q o
  moved q1 none same f = f
  moved q1 (some q2) same f = (f.0, f.1 ∙ same)

  -- From the request on.
  requested-Delivered :
      (w : World)
      → (q1 : Msgq) → w.queue t ≡ some q1
      → w.queue r ≡ some rq
      → HasFree q1.table xs
      → q1.table.pending x ≡ a.msg
      → q1.incoming ≡ q.incoming
      → q1.owner ≡ some o
      → w.store.m_body a.msg ≡ a.body
      → w.store.alive a.body ≡ true
      → w.store.refs a.body ≡ 1
      → IsSound w.kernel
      → w.kernel.present ≡ true
      → AreWaiting rq.ready.wq.tasks w.kernel
      → Returns Final (write_requested b t r virt size copied user (val x, w))
  unfolding write_requested release_after Final
  requested-Delivered w q1 tq rrq free holds same owner body alive single sound p waiting =
      let named = get_ptr-used q1.table x v.links.0 (ap ptr_is_valid holds ∙ valid) ∙ holds in
      Returns-bind Final (write_and_send b t r x virt size copied user w) (release_after t x)
        (passes b t r o x virt size copied user rq given small whole apart made opened word set w q1
          a.msg tq rrq there named owner fresh (ap w.store.alive body ∙ alive)
          (ap w.store.refs body ∙ single) sound p waiting)
        (λ (ret, w2) (done, queued, stays, bodies, read).
          subst (λ s. Returns Final (s >>= λ q. msg_release t q x w2 >>= λ (_, w'). ok (ret, w')))
            (sym (queue_of-some w2 t q1 stays))
            (Returns-bind Final (msg_release t q1 x w2) _
              (msg_release-Released t q1 x w2 a.msg xs named there
                (ap w2.store.alive (bodies ∙ body) ∙ (in_body w2 read body).there) free v.links.0
                v.distinct.0)
              (λ (_, w3) (_, freed, destroyed, frame). (
                done,
                subst (Queued b.msg rq) (sym (frame r (==-sym t r apart))) queued,
                moved q1 (w3.queue t) same freed,
                HasData-kept b.msg a.body size o user a.msg w2.store w3.store (bodies ∙ body)
                    destroyed (in_body w2 read body),
              ))))
    where
      in_body :
          (w2 : World) {c : ℕ}
          → HasData b.msg c 2 size o user w2.store
          → c ≡ a.body
          → HasData b.msg a.body 2 size o user w2.store
      in_body w2 read e = subst (λ c. HasData b.msg c 2 size o user w2.store) e read

  module _ (w : World) (tq : w.queue t ≡ some q) (rrq : w.queue r ≡ some rq)
      (sound : IsSound w.kernel) (p : w.kernel.present ≡ true)
      (waiting : AreWaiting rq.ready.wq.tasks w.kernel) where
    after_request :
        (ret : Ret) (w1 : World)
        → Requested a t q 0 x xs w v (ret, w1)
        → Returns Final (write_requested b t r virt size copied user (ret, w1))
    after_request ret w1 (done, holds, new, kernel, frame) =
        subst (λ k. Returns Final (write_requested b t r virt size copied user (k, w1))) (sym done)
          (elim (Option-cases (w1.queue t)) [
            | inl absent ↦ absurd (subst (Holds a t q 0 x xs w v) absent holds)
            | inr (q1, e) ↦
                let (free, at, same, owner) = subst (Holds a t q 0 x xs w v) e holds in
                requested-Delivered w1 q1 e (frame r (==-sym t r apart) ∙ rrq) free at same
                  (owner ∙ owned) new.0 new.2 new.1 (subst IsSound (sym kernel) sound)
                  (ap (λ k. k.present) kernel ∙ p)
                  (subst (AreWaiting rq.ready.wq.tasks) (sym kernel) waiting)
          ])

    -- A message that the current task writes to another arrives: it is the last one that came in at
    -- the recipient, with the user's bytes and the sender's identifier in its header, and the sender
    -- keeps no identifier of it. Its body is allocated and the message is the only one that refers to
    -- it. The sender has a free identifier and an owner, everything can be allocated and copied, the
    -- data has at most 256 bytes, the two messages are different, the kernel is sound and has a
    -- scheduler, and the recipient's event is not signaled or with automatic reset, its waiting tasks
    -- distinct and not running.
    pub write_inside-Delivered :
        w.kernel.current ≡ t
        → Returns
            (Delivered a b t r o x size user q rq xs)
            (write_inside a b r virt size copied user w)
    unfolding write_inside Final
    write_inside-Delivered current =
        let rest : Tid → Msgq → Result (Ret × World) =
          λ c q. msg_request a c q 0 w >>= write_requested b c r virt size copied user in
        subst (λ c. Returns Final (queue_of w c >>= rest c)) (sym current)
          (subst (λ s. Returns Final (s >>= rest t)) (sym (queue_of-some w t q tq))
            (Returns-bind Final (msg_request a t q 0 w)
              (write_requested b t r virt size copied user)
              (msg_request-Requested a t q 0 x xs w v enough valid)
              (λ (ret, w1) h. after_request ret w1 h)))
