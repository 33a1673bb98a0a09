-- ===== src/Msg/Send.antt =====
-- `__msg_send` and `__msg_release` of microkernel/msg.c.
use mathlib.Core.Path.{subst}
use neftis.Base.{
  ℕ, ◌+◌, ◌*◌, ◌/◌, ◌%◌, ◌<◌, true, false, not, ◌&&◌, ◌≡◌, ◌∙◌, refl, sym, ap, Option, none, some,
  [], ◌∷◌, ◌++◌, ◌==◌, ltb, leb, if◌then◌else◌, arith, if-false,
}
use neftis.Sched.{Kernel, Result, ok, ◌>>=◌, Tid, Returns, Returns-bind}
use neftis.Sched.Event.{Event, event_signal}
use neftis.Sched.Invariant.{IsSound}
use neftis.Sched.Waiting.{AreWaiting, Woken}
use neftis.Sched.Signals.{event_signal-wakes_all}
use neftis.Msg.{Ptr, null, msg_get_ptr}
use neftis.Msg.Queue.{
  Ret, val, err, Store, Msgq, World, put, put_self, set_queue, word_at, set_word, Allocs, msg_init,
  msg_new_from_ref, enomem, ebadf,
}
use neftis.Msg.Calls.{set_sender, msg_send}

-- A word is read back as it was written.
pub word_at-set_word : (f : ℕ → ℕ) (v : ℕ) → v < 4294967296 → word_at (set_word f 8 v) 8 ≡ v
unfolding word_at set_word
word_at-set_word f v h = bytes v h
  where
    bytes :
        (v : ℕ)
        → v < 4294967296
        → v / 1 % 256
            + 256 * (v / 256 % 256)
            + 65536 * (v / 65536 % 256)
            + 16777216 * (v / 16777216 % 256)
          ≡ v
    bytes v h = omega arith

-- The bytes beside it stay.
pub set_word-beside : (f : ℕ → ℕ) (v i : ℕ) → (leb 8 i && ltb i 12) ≡ false → set_word f 8 v i ≡ f i
unfolding set_word
set_word-beside f v i h = if-false _ _ h

-- The recipient has the message as the last one that came in.
abbrev pub Queued : Ptr → Msgq → Option Msgq → Type 0
Queued new rq none = ⊥
Queued new rq (some rq') = (rq'.incoming ≡ rq.incoming ++ new ∷ []) × (rq'.table ≡ rq.table)

module _ (a : Allocs) (q rq : Msgq) (r o : Tid) (id : ℕ) (w : World) (m : Ptr)
    (named : msg_get_ptr q.table id ≡ m) (there : (m == null) ≡ false) (owned : q.owner ≡ some o)
    (word : o < 4294967296) where
  -- The body that both messages refer to.
  body : Ptr
  body = w.store.m_body m

  copied : Store
  unfolding msg_init body
  copied = msg_init a.msg (w.store.m_body m) w.store

  sent : Store
  unfolding set_sender copied
  sent = set_sender a.msg (some o) (record copied { m_ro = put copied.m_ro a.msg true })

  -- The new message refers to the body of the one that is sent, as read-only; the body has one
  -- reference more, the sender's identifier, and otherwise the same bytes.
  pub record IsCopy (s : Store) : Type 0 where
    pub same_body : s.m_body a.msg ≡ w.store.m_body m
    pub read_only : s.m_ro a.msg ≡ true
    pub counted : s.refs (w.store.m_body m) ≡ w.store.refs (w.store.m_body m) + 1
    pub sender : word_at (s.mb_bytes (w.store.m_body m)) 8 ≡ o
    pub bytes :
        (i : ℕ)
        → (leb 8 i && ltb i 12) ≡ false
        → s.mb_bytes (w.store.m_body m) i ≡ w.store.mb_bytes (w.store.m_body m) i
    pub length : s.mb_micro_size ≡ w.store.mb_micro_size
    pub alive : s.alive ≡ w.store.alive
    pub others : (p : Ptr) → (p == a.msg) ≡ false → s.m_body p ≡ w.store.m_body p

  abbrev pub Sent : Ret × World → Type 0
  Sent (ret, w') =
      (ret ≡ val 0)
      × Queued a.msg rq (w'.queue r)
      × IsCopy w'.store
      × Woken rq.ready.wq.tasks w.kernel w'.kernel
      × ((u : Tid) → (u == r) ≡ false → w'.queue u ≡ w.queue u)

  sent-IsCopy : IsCopy sent
  unfolding sent copied set_sender msg_init
  sent-IsCopy =
      let b = w.store.m_body m in
      let at = put_self w.store.m_body a.msg b in
      let f = w.store.mb_bytes in
      let bytes : (put f (put w.store.m_body a.msg b a.msg)
            (set_word (f (put w.store.m_body a.msg b a.msg)) 8 o) b
          ≡ set_word (f b) 8 o) =
        ap (λ c. put f c (set_word (f c) 8 o) b) at ∙ put_self f b _ in
      record {
        same_body = at;
        read_only = put_self (put w.store.m_ro a.msg false) a.msg true;
        counted = put_self w.store.refs b _;
        sender = ap (λ g. word_at g 8) bytes ∙ word_at-set_word (f b) o word;
        bytes = λ i h. ap (λ g. g i) bytes ∙ set_word-beside (f b) o i h;
        length = refl;
        alive = refl;
        others = λ p h. if-false _ _ h;
      }

  module _ (made : (a.msg == null) ≡ false) (opened : a.ref ≡ true) where
    after : Event × Kernel → Result (Ret × World)
    after = λ (ready, k). ok (
      val 0,
      set_queue r (record rq { incoming = rq.incoming ++ a.msg ∷ []; ready = ready })
          (record w { kernel = k; store = sent }),
    )

    new_msg : msg_new_from_ref a (w.store.m_body m) w.store ≡ (a.msg, copied)
    unfolding msg_new_from_ref copied
    new_msg = if-false _ _ made ∙ if-false _ _ (ap not opened)

    signals : msg_send a q r rq id w ≡ (event_signal rq.ready w.kernel >>= after)
    unfolding msg_send after sent
    signals =
        let goes_on : Ptr × Store → Result (Ret × World) = λ (new, s).
          if new == null
          then ok (err enomem, record w { store = s })
          else (let s' = set_sender new q.owner (record s { m_ro = put s.m_ro new true }) in
              event_signal rq.ready w.kernel >>= λ (ready, k). ok (
                val 0,
                set_queue r (record rq { incoming = rq.incoming ++ new ∷ []; ready = ready })
                    (record w { kernel = k; store = s' }),
              )) in
        ap
          (λ n.
            if n == null
            then ok (err ebadf, w)
            else goes_on (msg_new_from_ref a (w.store.m_body n) w.store))
          named
        ∙ if-false _ _ there
        ∙ ap goes_on new_msg
        ∙ if-false _ _ made
        ∙ ap
            (λ owner. event_signal rq.ready w.kernel >>= λ (ready, k). ok (
              val 0,
              set_queue r (record rq { incoming = rq.incoming ++ a.msg ∷ []; ready = ready })
                  (record w {
                    kernel = k;
                    store =
                        set_sender a.msg owner
                          (record copied { m_ro = put copied.m_ro a.msg true });
                  }),
            ))
            owned

    -- A message that is sent is the last of the recipient's incoming ones: a new, read-only message
    -- that shares the body, whose header names the sender, and every task that waits for it is woken.
    -- The identifier is a message's, the new message can be allocated, the kernel is sound and has a
    -- scheduler, and the event is as a signal wants it: not signaled or with automatic reset, its
    -- waiting tasks distinct and not running.
    pub msg_send-Sent :
        IsSound w.kernel
        → w.kernel.present ≡ true
        → AreWaiting rq.ready.wq.tasks w.kernel
        → (rq.ready.signaled && not rq.ready.auto_reset) ≡ false
        → Returns Sent (msg_send a q r rq id w)
    unfolding after
    msg_send-Sent v p waiting new = subst (Returns Sent) (sym signals) (
        Returns-bind Sent (event_signal rq.ready w.kernel) after
          (event_signal-wakes_all rq.ready w.kernel v p waiting new)
          (λ (ready, k) (woken, sound). (
            refl,
            subst (Queued a.msg rq) (sym (put_self w.queue r _)) (refl, refl),
            sent-IsCopy,
            woken.2,
            λ u h. if-false _ _ h,
          )))
