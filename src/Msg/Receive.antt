-- ===== src/Msg/Receive.antt =====
-- `__msg_recv_by_type` and `__msg_recv` of microkernel/msg.c: which message is received.
use mathlib.Core.Path.{subst}
use neftis.Base.{
  ℕ, zero, suc, Bool, true, false, not, ◌&&◌, ◌≡◌, ◌∙◌, refl, sym, ap, Option, none, some, List, [],
  ◌∷◌, ◌++◌, ◌==◌, if◌then◌else◌, erase, arith, ==-refl, if-false,
}
use neftis.Sched.{Result, ok, ◌>>=◌, Tid, Returns}
use neftis.Msg.{Ptr, minus_one, ptr_is_valid, Table, msgq_alloc_id}
use neftis.Msg.Ids.{HasFree, taken, alloc_first, fill-HasFree}
use neftis.Msg.Queue.{
  emfile, eagain, Ret, val, err, Store, Msgq, World, put_self, set_queue, msg_type,
}
use neftis.Msg.Calls.{
  set_pending, passes_over, found, no_message, searching, search_ring, recv_found, msg_recv_by_type,
}

-- What an operation that may not end within its fuel leaves.
abbrev pub Ends : (Ret × World → Type 0) → Option (Result (Ret × World)) → Type 0
Ends P none = ⊥
Ends P (some r) = Returns P r

erase_head : (x : ℕ) (xs : List ℕ) → erase x (x ∷ xs) ≡ xs
erase_head x xs = rw (==-refl x)

not_passed : (type : ℕ) (s : Store) (m : Ptr) → passes_over type minus_one s m ≡ false
unfolding passes_over
not_passed type s m = and_false (not (type == minus_one) && not (msg_type s m == type))
  where
    and_false : (b : Bool) → (b && false) ≡ false
    and_false true = refl
    and_false false = refl

module _ (t : Tid) (q : Msgq) (w : World) (m : Ptr) (ms : List Ptr) (at : q.incoming ≡ m ∷ ms) where
  -- The task's queue holds the received message under the identifier, and no longer as incoming.
  abbrev pub Holds : ℕ → List ℕ → Option Msgq → Type 0
  Holds x xs none = ⊥
  Holds x xs (some q') = HasFree q'.table xs × (q'.table.pending x ≡ m) × (q'.incoming ≡ ms)

  abbrev pub Received : ℕ → List ℕ → Ret × World → Type 0
  Received x xs (r, w') = (r ≡ val x) × Holds x xs (w'.queue t) × (w'.store ≡ w.store)

  found_first : (fuel type : ℕ) → search_ring (suc fuel) type minus_one w.store q.incoming ≡ found m
  unfolding search_ring
  found_first fuel type =
      ap (search_ring (suc fuel) type minus_one w.store) at
      ∙ if-false _ _ (not_passed type w.store m)

  ends :
      (fuel type : ℕ) → msg_recv_by_type (suc fuel) t q type minus_one w ≡ some (recv_found t q m w)
  unfolding msg_recv_by_type
  ends fuel type =
      ap
        (λ s. elim s [
          | found m ↦ some (recv_found t q m w)
          | no_message ↦ some (ok (err eagain, w))
          | searching ↦ none
        ])
        (found_first fuel type)

  -- `__msg_recv_by_type` for any link takes the first message in, whatever type is asked for, under
  -- the first free identifier, if there is one and a message, and ends after one step; `__msg_recv` is the case of any type.
  pub recv-first :
      (fuel type x : ℕ) (xs : List ℕ)
      → HasFree q.table (x ∷ xs)
      → ptr_is_valid m ≡ true
      → Ends (Received x xs) (msg_recv_by_type (suc fuel) t q type minus_one w)
  unfolding recv_found
  recv-first fuel type x xs v valid = subst (Ends (Received x xs)) (sym (ends fuel type)) (
      subst (λ r. Returns (Received x xs) (r >>= take)) (sym (alloc_first q.table x xs v))
        (
          refl,
          subst (Holds x xs) (sym (put_self w.queue t _)) (
            fill-HasFree q.table x xs m v valid,
            put_self (taken q.table x xs).pending x m,
            ap (erase m) at ∙ erase_head m ms,
          ),
          refl,
        ))
    where
      take : Option ℕ × Table → Result (Ret × World)
      take = λ (got, table). elim got [
        | none ↦ ok (err emfile, w)
        | some id ↦ ok (
          val id,
          set_queue t (record q { table = set_pending id m table; incoming = erase m q.incoming })
              w,
        )
      ]

  -- Without a free identifier a receive for any link changes nothing, and the message stays in the
  -- queue.
  pub recv-full :
      (fuel type : ℕ)
      → HasFree q.table []
      → Ends
          (λ (r, w'). (r ≡ err emfile) × (w' ≡ w))
          (msg_recv_by_type (suc fuel) t q type minus_one w)
  unfolding recv_found msgq_alloc_id
  recv-full fuel type v = subst (Ends _) (sym (ends fuel type)) (rw v.starts (refl, refl))

-- Whether the search goes on past all of them.
abbrev pub passes_all : ℕ → ℕ → Store → List Ptr → Bool
passes_all type link s [] = true
passes_all type link s (m ∷ ms) = passes_over type link s m && passes_all type link s ms

passes_all-append :
    (type link : ℕ) (s : Store) (m : Ptr) (ms : List Ptr)
    → passes_all type link s (ms ++ m ∷ [])
      ≡ (passes_over type link s m && passes_all type link s ms)
passes_all-append type link s m [] = refl
passes_all-append type link s m (n ∷ ms) =
    ap (λ b. passes_over type link s n && b) (passes_all-append type link s m ms)
    ∙ swap (passes_over type link s n) (passes_over type link s m) (passes_all type link s ms)
  where
    swap : (a b c : Bool) → (a && (b && c)) ≡ (b && (a && c))
    swap true b c = refl
    swap false true c = refl
    swap false false c = refl

and_left : (a b : Bool) → (a && b) ≡ true → a ≡ true
and_left a b h = ground arith

search-endless :
    (fuel type link : ℕ) (s : Store) (m : Ptr) (ms : List Ptr)
    → passes_all type link s (m ∷ ms) ≡ true
    → search_ring fuel type link s (m ∷ ms) ≡ searching
unfolding search_ring
search-endless zero type link s m ms all = refl
search-endless (suc fuel) type link s m [] all =
    ap (λ b. if b then search_ring fuel type link s (m ∷ []) else found m)
      (and_left (passes_over type link s m) _ all)
    ∙ search-endless fuel type link s m [] all
search-endless (suc fuel) type link s m (n ∷ ms) all =
    ap (λ b. if b then search_ring fuel type link s (n ∷ ms ++ m ∷ []) else found m)
      (and_left (passes_over type link s m) _ all)
    ∙ search-endless fuel type link s n (ms ++ m ∷ [])
        (passes_all-append type link s m (n ∷ ms) ∙ all)

-- Where there are messages and the loop goes on past all of them, it never ends: the ring has no
-- NULL, and -EAGAIN is not returned.
pub recv_by_type-endless :
    (fuel : ℕ) (t : Tid) (q : Msgq) (type link : ℕ) (w : World) (m : Ptr) (ms : List Ptr)
    → q.incoming ≡ m ∷ ms
    → passes_all type link w.store (m ∷ ms) ≡ true
    → msg_recv_by_type fuel t q type link w ≡ none
unfolding msg_recv_by_type
recv_by_type-endless fuel t q type link w m ms at all =
    ap
      (λ s. elim s [
        | found m ↦ some (recv_found t q m w)
        | no_message ↦ some (ok (err eagain, w))
        | searching ↦ none
      ])
      (ap (search_ring fuel type link w.store) at ∙ search-endless fuel type link w.store m ms all)
