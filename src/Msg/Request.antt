-- ===== src/Msg/Request.antt =====
-- `__msg_request` of microkernel/msg.c: a new message in the table, or the table as it was.
use mathlib.Core.Path.{subst}
use neftis.Base.{
  ℕ, ◌+◌, Bool, true, false, not, ◌||◌, ◌&&◌, ◌≡◌, ◌∙◌, refl, sym, ap, inl, inr, Option, none, some,
  List, ◌∷◌, ◌==◌, ltb, if◌then◌else◌, Bool-cases, arith, if-false, if-true,
}
use neftis.Sched.{Result, ok, bug, ◌>>=◌, Tid, Returns, Returns-bind}
use neftis.Msg.{Ptr, null, ptr_is_valid, msgq_release_id}
use neftis.Msg.Ids.{HasFree, taken, fill-HasFree, alloc_first, release_taken, SameTable}
use neftis.Msg.Queue.{
  enomem, emfile, Ret, val, err, Store, Msgq, World, put, put_self, set_queue, Allocs, msg_body_new,
  msg_body_destroy, msg_new_from_msg, msg_init,
}
use neftis.Msg.Calls.{set_pending, request_fail, request_with, request_msg, msg_request}

-- The task has a queue with the same table, slot by slot, and the same messages, event and owner.
abbrev pub SameQueue : Msgq → Option Msgq → Type 0
SameQueue q none = ⊥
SameQueue q (some q') =
    SameTable q.table q'.table
    × (q'.incoming ≡ q.incoming)
    × (q'.ready ≡ q.ready)
    × (q'.owner ≡ q.owner)

-- Whether the body or its pages cannot be allocated.
abbrev pub lacks_body : Allocs → ℕ → Bool
lacks_body a size = (a.body == null) || (ltb 0 size && not a.pages)

-- Whether something that a request needs cannot be allocated.
abbrev pub lacks : Allocs → ℕ → Bool
lacks a size = lacks_body a size || ((a.msg == null) || not a.object || not a.ref)

-- Whether an object is made that cannot be opened, after all that comes before.
abbrev pub unopened : Allocs → ℕ → Bool
unopened a size = not (lacks_body a size) && (not ((a.msg == null) || not a.object) && not a.ref)

no_body :
    (a : Allocs) (size : ℕ) (s : Store)
    → lacks_body a size ≡ true
    → msg_body_new a size s ≡ (null, s)
unfolding msg_body_new
no_body a size s h = elim (Bool-cases (a.body == null)) [
  | inl absent ↦ if-true _ _ absent
  | inr there ↦
      let no_pages : (ltb 0 size && not a.pages) ≡ true = ground arith in
      if-false _ _ there ∙ if-true _ _ no_pages
]

module _ (a : Allocs) (t : Tid) (q : Msgq) (size x : ℕ) (xs : List ℕ) (w : World)
    (v : HasFree q.table (x ∷ xs)) where
  -- What a failed request leaves: the queues and the bodies that were there, and not its own body.
  abbrev pub Restored : Ret × World → Type 0
  Restored (r, w') =
      (r ≡ err enomem)
      × SameQueue q (w'.queue t)
      × ((u : Tid) → (u == t) ≡ false → w'.queue u ≡ w.queue u)
      × (w'.kernel ≡ w.kernel)
      × ((b : Ptr) → (b == a.body) ≡ false → w'.store.alive b ≡ w.store.alive b)
      × (w'.store.alive a.body ≡ (if lacks_body a size then w.store.alive a.body else false))

  fail-Restored :
      (s : Store)
      → ((b : Ptr) → (b == a.body) ≡ false → s.alive b ≡ w.store.alive b)
      → s.alive a.body ≡ (if lacks_body a size then w.store.alive a.body else false)
      → Returns Restored (request_fail t q (taken q.table x xs) x (record w { store = s }))
  unfolding request_fail
  fail-Restored s others own =
      Returns-bind Restored (msgq_release_id (taken q.table x xs) x) _
        (release_taken q.table x xs v)
        (λ table same. (
          refl,
          subst (SameQueue q) (sym (put_self w.queue t (some (record q { table = table }))))
              (same, refl, refl, refl),
          λ u h. if-false _ _ h,
          refl,
          others,
          own,
        ))

  first : msg_request a t q size w ≡ request_with a t q size (taken q.table x xs) x w
  unfolding msg_request
  first =
      ap
        (λ r. r >>= λ (got, table). elim got [
          | none ↦ ok (err emfile, w)
          | some id ↦ request_with a t q size table id w
        ])
        (alloc_first q.table x xs v)

  -- The task has a queue where the identifier is taken by the new message.
  abbrev pub Holds : Option Msgq → Type 0
  Holds none = ⊥
  Holds (some q') =
      HasFree q'.table xs
      × (q'.table.pending x ≡ a.msg)
      × (q'.incoming ≡ q.incoming)
      × (q'.owner ≡ q.owner)

  -- The new message alone refers to a body of the size, without data.
  abbrev pub IsNew : Store → Type 0
  IsNew s =
      (s.m_body a.msg ≡ a.body)
      × (s.refs a.body ≡ 1)
      × (s.alive a.body ≡ true)
      × (s.mb_size a.body ≡ size)
      × (s.mb_micro_size a.body ≡ 0)
      × (s.m_virt a.msg ≡ 0)
      × (s.m_ro a.msg ≡ false)

  abbrev pub Requested : Ret × World → Type 0
  Requested (r, w') =
      (r ≡ val x)
      × Holds (w'.queue t)
      × IsNew w'.store
      × (w'.kernel ≡ w.kernel)
      × ((u : Tid) → (u == t) ≡ false → w'.queue u ≡ w.queue u)

  bodied : Store
  bodied = record w.store {
    mb_size = put w.store.mb_size a.body size;
    mb_micro_size = put w.store.mb_micro_size a.body 0;
    mb_bytes = put w.store.mb_bytes a.body λ i. if ltb i 12 then 0 else w.store.mb_bytes a.body i;
    alive = put w.store.alive a.body true;
  }

  messaged : Store
  unfolding msg_init bodied
  messaged = msg_init a.msg a.body (record bodied { refs = put bodied.refs a.body 0 })

  final : Ret × World
  unfolding messaged
  final = (
    val x,
    set_queue t (record q { table = set_pending x a.msg (taken q.table x xs) })
        (record w { store = messaged }),
  )

  after_body : Ptr × Store → Result (Ret × World)
  after_body = λ (body, s).
      if body == null
      then request_fail t q (taken q.table x xs) x (record w { store = s })
      else request_msg a t q (taken q.table x xs) x body (record w { store = s })

  after_msg : Ptr × Store → Result (Ret × World)
  after_msg = λ (m, s).
      if m == null
      then (msg_body_destroy a.body s >>= λ s'.
          request_fail t q (taken q.table x xs) x (record w { store = s' }))
      else ok (
        val x,
        set_queue t (record q { table = set_pending x m (taken q.table x xs) })
            (record w { store = s }),
      )

  -- With a body, the message is next.
  with_body :
      (a.body == null) ≡ false
      → (ltb 0 size && not a.pages) ≡ false
      → request_with a t q size (taken q.table x xs) x w
        ≡ (msg_new_from_msg a a.body bodied >>= after_msg)
  unfolding request_with request_msg after_body after_msg msg_body_new bodied
  with_body there pages =
      ap after_body (if-false _ _ there ∙ if-false _ _ pages) ∙ if-false _ _ there

  -- Without a body nothing else is asked for.
  without_body :
      lacks_body a size ≡ true → Returns Restored (request_with a t q size (taken q.table x xs) x w)
  unfolding request_with after_body
  without_body h =
      subst (λ made. Returns Restored (after_body made)) (sym (no_body a size w.store h))
        (fail-Restored w.store (λ b e. refl) (sym (if-true _ _ h)))

  -- Without a message the body is destroyed again.
  without_msg :
      (s : Store)
      → lacks_body a size ≡ false
      → s.alive ≡ put w.store.alive a.body true
      → Returns Restored (after_msg (null, s))
  unfolding after_msg msg_body_destroy
  without_msg s has_body alive =
      let s' : Store = record s { alive = put s.alive a.body false; closed = a.body ∷ s.closed } in
      let there : s.alive a.body ≡ true =
        ap (λ f. f a.body) alive ∙ put_self w.store.alive a.body true in
      subst
        (λ d.
          Returns Restored
            (d >>= λ s'. request_fail t q (taken q.table x xs) x (record w { store = s' })))
        (sym (if-true (ok s') bug there))
        (fail-Restored s' (λ b e. if-false _ _ e ∙ ap (λ f. f b) alive ∙ if-false _ _ e)
          (put_self s.alive a.body false ∙ sym (if-false _ _ has_body)))

  -- A body that is destroyed already stops the kernel.
  dead_body : (s : Store) → s.alive a.body ≡ false → after_msg (null, s) ≡ bug
  unfolding after_msg msg_body_destroy
  dead_body s dead =
      ap (λ d. d >>= λ s'. request_fail t q (taken q.table x xs) x (record w { store = s' }))
        (if-false (ok (record s { alive = put s.alive a.body false; closed = a.body ∷ s.closed }))
          bug dead)

  -- The kernel stops, or the request fails.
  abbrev pub Ended : Bool → Result (Ret × World) → Type 0
  Ended true r = r ≡ bug
  Ended false r = Returns Restored r

  ends_as :
      (b : Bool) (r r' : Result (Ret × World))
      → unopened a size ≡ b
      → r ≡ r'
      → Ended b r'
      → Ended (unopened a size) r
  ends_as b r r' e same f = subst (λ c. Ended c r) (sym e) (subst (Ended b) (sym same) f)

  bodied-alive : bodied.alive ≡ put w.store.alive a.body true
  unfolding bodied
  bodied-alive = refl

  -- The store where the body is destroyed with its object.
  bare : Store
  unfolding bodied
  bare = record bodied {
    alive = put bodied.alive a.body false;
    closed = a.body ∷ bodied.closed;
    freed = a.msg ∷ bodied.freed;
  }

  not_opened :
      (a.msg == null) ≡ false
      → not a.object ≡ false
      → not a.ref ≡ true
      → msg_new_from_msg a a.body bodied ≡ ok (null, bare)
  unfolding msg_new_from_msg msg_body_destroy bare bodied
  not_opened made object no_ref =
      if-false _ _ made
      ∙ if-false _ _ object
      ∙ if-true _ _ no_ref
      ∙ ap (λ d. d >>= λ s'. ok (null, record s' { freed = a.msg ∷ s'.freed }))
          (if-true _ _ (put_self w.store.alive a.body true))

  -- What becomes of the message.
  msg_new-Ended :
      lacks_body a size ≡ false
      → lacks a size ≡ true
      → Ended (unopened a size) (msg_new_from_msg a a.body bodied >>= after_msg)
  unfolding msg_new_from_msg bare
  msg_new-Ended has_body h =
      let step = λ (made : Result (Ptr × Store)). made >>= after_msg in
      elim (Bool-cases (a.msg == null)) [
        | inl absent ↦
            ends_as false _ _ (ground arith) (ap step (if-true _ _ absent))
              (without_msg bodied has_body bodied-alive)
        | inr made ↦ elim (Bool-cases (not a.object)) [
          | inl no_object ↦
              ends_as false _ _ (ground arith) (ap step (if-false _ _ made ∙ if-true _ _ no_object))
                (without_msg (record bodied { freed = a.msg ∷ bodied.freed }) has_body bodied-alive)
          | inr object ↦
              ends_as true _ _ (ground arith) (ap step (not_opened made object (ground arith)))
                (dead_body bare (put_self bodied.alive a.body false))
        ]
      ]

  -- With a free identifier, a request that cannot allocate its body, its pages, the message or the object
  -- returns -ENOMEM and leaves the queues as they were, with the same identifier the next free one; the
  -- body that it made is destroyed, and no other. Where the object is made and cannot be opened the
  -- body is destroyed twice, and the kernel stops.
  pub msg_request-fails : lacks a size ≡ true → Ended (unopened a size) (msg_request a t q size w)
  msg_request-fails h =
      ends_as (unopened a size) _ _ refl first (elim (Bool-cases (lacks_body a size)) [
        | inl lacking ↦ ends_as false _ _ (ground arith) refl (without_body lacking)
        | inr has_body ↦
            ends_as (unopened a size) _ _ refl (with_body (ground arith) (ground arith))
              (msg_new-Ended has_body h)
      ])

  module _ (h : lacks a size ≡ false) where
    no_null : (a.body == null) ≡ false
    no_null = ground arith

    pages : (ltb 0 size && not a.pages) ≡ false
    pages = ground arith

    msg_made : msg_new_from_msg a a.body bodied ≡ ok (a.msg, messaged)
    unfolding msg_new_from_msg messaged
    msg_made = if-false _ _ (lacking.0) ∙ if-false _ _ lacking.1 ∙ if-false _ _ lacking.2
      where
        lacking : ((a.msg == null) ≡ false) × (not a.object ≡ false) × (not a.ref ≡ false)
        lacking = (ground arith, ground arith, ground arith)

    with_msg : request_with a t q size (taken q.table x xs) x w ≡ ok final
    unfolding final after_msg
    with_msg = with_body no_null pages ∙ ap (λ r. r >>= after_msg) msg_made ∙ if-false _ _ msg_there
      where
        msg_there : (a.msg == null) ≡ false
        msg_there = ground arith

  -- With a free identifier, a request that can allocate everything returns the first free identifier, now of a message that
  -- alone refers to a body of the size asked for, without data.
  pub msg_request-Requested :
      lacks a size ≡ false
      → ptr_is_valid a.msg ≡ true
      → Returns Requested (msg_request a t q size w)
  unfolding msg_init final messaged bodied
  msg_request-Requested h valid =
      let s = w.store in
      subst (Returns Requested) (sym (first ∙ with_msg h)) (
        refl,
        subst Holds (sym (put_self w.queue t _)) (
          fill-HasFree q.table x xs a.msg v valid,
          put_self (taken q.table x xs).pending x a.msg,
          refl,
          refl,
        ),
        (
          put_self s.m_body a.msg a.body,
          put_self (put s.refs a.body 0) a.body _ ∙ ap (λ n. n + 1) (put_self s.refs a.body 0),
          put_self s.alive a.body true,
          put_self s.mb_size a.body size,
          put_self s.mb_micro_size a.body 0,
          put_self s.m_virt a.msg 0,
          put_self s.m_ro a.msg false,
        ),
        refl,
        λ u h. if-false _ _ h,
      )
