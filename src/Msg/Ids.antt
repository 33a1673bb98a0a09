-- ===== src/Msg/Ids.antt =====
-- The identifiers of messages: `__msgq_alloc_id` and `__msgq_release_id` of microkernel/msg.c keep
-- the free slots of the table in a list that is threaded through them.
use neftis.Base.{
  ℕ, ◌+◌, ◌*◌, ◌/◌, ◌%◌, ◌<◌, true, false, ◌≡◌, ◌∙◌, refl, sym, ap, inl, inr, Option, none, some,
  List, [], ◌∷◌, ◌==◌, if◌then◌else◌, has, IsDistinct, Bool-cases, arith, ==→eq, ne→==, lt→ltb,
  ==-refl,
}
use neftis.Sched.{ok, update, head_or, Returns}
use neftis.Msg.{
  Ptr, null, minus_one, ptr_is_valid, ptr_get_idx, ptr_idx, Table, msgq_alloc_id, msgq_release_id,
}

small-ptr_idx : (i : ℕ) → i < 64 → ptr_idx i ≡ i * 2 + 1
unfolding ptr_idx
small-ptr_idx i h = omega arith

get_idx-odd : (i : ℕ) → i < 64 → ptr_get_idx (i * 2 + 1) ≡ i
unfolding ptr_get_idx
get_idx-odd i h =
    ap (λ b. if b then (i * 2 + 1) / 2 else (i * 2 + 1) / 2 + 2147483648)
      (lt→ltb (i * 2 + 1) 2147483648 (omega arith))
    ∙ omega arith

is_valid-odd : (i : ℕ) → ptr_is_valid (i * 2 + 1) ≡ false
unfolding ptr_is_valid
is_valid-odd i = ne→== ((i * 2 + 1) % 2) 0 (λ e. omega arith)

-- An index survives its encoding as a pointer, which is never taken for an address: the index of a
-- slot, and the -1 at the end of the list.
pub ptr_get_idx-ptr_idx :
    (i : ℕ)
    → i < 64
    → (ptr_get_idx (ptr_idx i) ≡ i)
      × (ptr_is_valid (ptr_idx i) ≡ false)
      × (ptr_get_idx (ptr_idx minus_one) ≡ minus_one)
      × (ptr_is_valid (ptr_idx minus_one) ≡ false)
unfolding ptr_get_idx ptr_idx ptr_is_valid
ptr_get_idx-ptr_idx i h = (
  ap ptr_get_idx (small-ptr_idx i h) ∙ get_idx-odd i h,
  ap ptr_is_valid (small-ptr_idx i h) ∙ is_valid-odd i,
  refl,
  refl,
)

-- The free slots, threaded through the table from `last_free` on.
abbrev pub FreeChain : (ℕ → Ptr) → List ℕ → Type 0
FreeChain f [] = Unit {0}
FreeChain f (x ∷ xs) = (x < 64) × (f x ≡ ptr_idx (head_or minus_one xs)) × FreeChain f xs

-- The table with the free slots `xs`: every other slot holds an address.
pub record HasFree (t : Table) (xs : List ℕ) : Type 0 where
  pub starts : t.last_free ≡ head_or minus_one xs
  pub links : FreeChain t.pending xs
  pub distinct : IsDistinct xs
  pub used : (i : ℕ) → i < 64 → has i xs ≡ false → ptr_is_valid (t.pending i) ≡ true

not_here : (i x : ℕ) (xs : List ℕ) → has i (x ∷ xs) ≡ false → (x == i) ≡ false
not_here i x xs out = ground arith

-- A write past the free slots.
pub FreeChain-update :
    (f : ℕ → Ptr) (i : ℕ) (p : Ptr) (xs : List ℕ)
    → has i xs ≡ false
    → FreeChain f xs
    → FreeChain (update f i p) xs
FreeChain-update f i p [] out c = tt
FreeChain-update f i p (x ∷ xs) out c = (
  c.0,
  ap (λ b. if b then p else f x) (not_here i x xs out) ∙ c.1,
  FreeChain-update f i p xs (ground arith) c.2,
)

head-idx :
    (f : ℕ → Ptr) (xs : List ℕ)
    → FreeChain f xs
    → ptr_get_idx (ptr_idx (head_or minus_one xs)) ≡ head_or minus_one xs
head-idx f [] c = (ptr_get_idx-ptr_idx 0 (omega arith)).2
head-idx f (x ∷ xs) c = (ptr_get_idx-ptr_idx x c.0).0

head-not_valid :
    (f : ℕ → Ptr) (xs : List ℕ)
    → FreeChain f xs
    → ptr_is_valid (ptr_idx (head_or minus_one xs)) ≡ false
head-not_valid f [] c = (ptr_get_idx-ptr_idx 0 (omega arith)).3
head-not_valid f (x ∷ xs) c = (ptr_get_idx-ptr_idx x c.0).1

-- What `__msgq_alloc_id` makes of a table with these free slots.
abbrev pub Allocated : Table → List ℕ → Option ℕ → Table → Type 0
Allocated t [] none t' = t' ≡ t
Allocated t [] (some id) t' = ⊥
Allocated t (x ∷ xs) none t' = ⊥
Allocated t (x ∷ xs) (some id) t' =
    (id ≡ x)
    × (t'.pending x ≡ null)
    × ((i : ℕ) → (i == x) ≡ false → t'.pending i ≡ t.pending i)
    × HasFree t' xs

pub null-is_valid : ptr_is_valid null ≡ true
unfolding ptr_is_valid
null-is_valid = refl

unfoldable pub taken : Table → ℕ → List ℕ → Table
taken t x xs = record { pending = update t.pending x null; last_free = head_or minus_one xs }

not_minus_one : (x : ℕ) → x < 64 → x ≡ minus_one → ⊥
not_minus_one x h e = omega arith

module _ (t : Table) (x : ℕ) (xs : List ℕ) (v : HasFree t (x ∷ xs)) where
  pub taken-HasFree : HasFree (taken t x xs) xs
  unfolding taken
  taken-HasFree = record {
    starts = refl;
    links = FreeChain-update t.pending x null xs v.distinct.0 v.links.2;
    distinct = v.distinct.1;
    used = λ i h out. elim (Bool-cases (i == x)) [
      | inl here ↦ rw here null-is_valid
      | inr other ↦ rw other (v.used i h (rw (other, out)))
    ];
  }

  pub alloc_first : msgq_alloc_id t ≡ ok (some x, taken t x xs)
  unfolding msgq_alloc_id taken
  alloc_first = rw (
    v.starts,
    ne→== x minus_one (λ e. not_minus_one x v.links.0 e),
    lt→ltb x 64 v.links.0,
    v.links.1,
    head-not_valid t.pending xs v.links.2,
    head-idx t.pending xs v.links.2,
  )

-- In a table with the free slots `xs`, `__msgq_alloc_id` takes the first free slot out of the
-- list and clears it, and no other slot changes; without a free slot it fails and the table is the
-- same. No assertion fails.
pub msgq_alloc_id-Allocated :
    (t : Table) (xs : List ℕ)
    → HasFree t xs
    → Returns (λ (id, t'). Allocated t xs id t') (msgq_alloc_id t)
unfolding msgq_alloc_id taken
msgq_alloc_id-Allocated t [] v = rw v.starts refl
msgq_alloc_id-Allocated t (x ∷ xs) v = rw (alloc_first t x xs v) (
  refl,
  ap (λ b. if b then null else t.pending x) (==-refl x),
  λ i other. ap (λ b. if b then null else t.pending i) other,
  taken-HasFree t x xs v,
)

-- `__msgq_release_id` of a slot that is in use makes it the first free one. No assertion fails.
pub msgq_release_id-HasFree :
    (t : Table) (xs : List ℕ) (id : ℕ)
    → HasFree t xs
    → id < 64
    → has id xs ≡ false
    → Returns (λ t'. HasFree t' (id ∷ xs)) (msgq_release_id t id)
unfolding msgq_release_id
msgq_release_id-HasFree t xs id v h out =
    rw (lt→ltb id 64 h, v.used id h out, v.starts)
      (record {
        starts = refl;
        links = (
          h,
          ap (λ b. if b then ptr_idx (head_or minus_one xs) else t.pending id) (==-refl id),
          FreeChain-update t.pending id _ xs out v.links,
        );
        distinct = (out, v.distinct);
        used = λ i h' out'.
            ap (λ b. ptr_is_valid (if b then ptr_idx (head_or minus_one xs) else t.pending i))
              (apart i id xs out')
            ∙ v.used i h' (rest i id xs out');
      })
  where
    apart : (i x : ℕ) (xs : List ℕ) → has i (x ∷ xs) ≡ false → (i == x) ≡ false
    apart i x xs out = ground arith

    rest : (i x : ℕ) (xs : List ℕ) → has i (x ∷ xs) ≡ false → has i xs ≡ false
    rest i x xs out = ground arith

-- The slot that was taken gets a message's address.
pub fill-HasFree :
    (t : Table) (x : ℕ) (xs : List ℕ) (m : Ptr)
    → HasFree t (x ∷ xs)
    → ptr_is_valid m ≡ true
    → HasFree (record (taken t x xs) { pending = update (taken t x xs).pending x m }) xs
fill-HasFree t x xs m v valid =
    let h = taken-HasFree t x xs v in
    record {
      starts = h.starts;
      links = FreeChain-update _ x m xs v.distinct.0 h.links;
      distinct = h.distinct;
      used = λ i small out. elim (Bool-cases (i == x)) [
        | inl here ↦ rw here valid
        | inr other ↦ rw other (h.used i small out)
      ];
    }

-- Two tables that agree slot by slot, with the same first free slot.
abbrev pub SameTable : Table → Table → Type 0
SameTable t t' = ((i : ℕ) → t'.pending i ≡ t.pending i) × (t'.last_free ≡ t.last_free)

pub release_taken :
    (t : Table) (x : ℕ) (xs : List ℕ)
    → HasFree t (x ∷ xs)
    → Returns (SameTable t) (msgq_release_id (taken t x xs) x)
unfolding msgq_release_id taken
release_taken t x xs v =
    rw (==-refl x, null-is_valid, lt→ltb x 64 v.links.0)
      (
        λ i. elim (Bool-cases (i == x)) [
          | inl here ↦ rw here (sym v.links.1 ∙ ap t.pending (sym (==→eq i x here)))
          | inr other ↦ rw other
        ],
        sym v.starts,
      )
