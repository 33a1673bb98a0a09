-- ===== src/Hook/Bucket.antt =====
-- The lists of a bucket of common/hook.c, and what `hook_register` does to them.
use mathlib.Core.Bool.{false≢true}
use mathlib.Core.Path.{subst}
use neftis.Base.{
  ℕ, true, false, ◌||◌, ◌≡◌, ◌≢◌, ◌∙◌, refl, sym, ap, inl, inr, List, [], ◌∷◌, arith, ◌==◌,
  if◌then◌else◌, if-elim, Bool-cases, Option, none, some, Option-cases, ne→==, ==→eq, ==-sym,
  ==-refl, write, write_self, write_other, has, has_head, ne_of_has,
}
use neftis.Links.{Memory}
use neftis.Links.Chain.{Chain-frame, IsList}
use neftis.Links.Splice.{ahead, Chain-ahead}
use neftis.Hook.{
  Ptr, null, ℤ, pos, negsuc, kernel_error_value, Hooks, less_int, in_bounds, hook_add, register_at,
  hook_register,
}

abbrev pub links : Hooks → Memory
links h = record { next = h.hf_next; prev = h.hf_prev; index = λ p. 0 }

-- The functions of a list, with their data.
abbrev pub entries : Hooks → List Ptr → List (ℕ × ℕ)
entries h [] = []
entries h (x ∷ xs) = (h.hf_func x, h.hf_data x) ∷ entries h xs

abbrev pub IsCode : Hooks → ℕ → Type 0
IsCode h i = less_int (pos i) h.hb_hook_count ≡ true

-- Every code has its list; no node is in two of them.
pub record IsBucket (h : Hooks) (lists : ℕ → List Ptr) : Type 0 where
  pub list_of : (i : ℕ) → IsCode h i → IsList (links h) (h.hb_hooks i) (lists i)
  pub apart :
      (i j a : ℕ)
      → IsCode h i
      → IsCode h j
      → (i == j) ≡ false
      → has a (lists i) ≡ true
      → has a (lists j) ≡ false

-- The bucket calls for each code the functions of `b`, with their data, in order.
abbrev pub Offers : Hooks → (ℕ → List (ℕ × ℕ)) → Type 0
Offers h b =
    (lists : ℕ → List Ptr) × IsBucket h lists × ((i : ℕ) → IsCode h i → entries h (lists i) ≡ b i)

-- Nothing that `kalloc` gives is in a list.
abbrev pub IsFresh : Hooks → (ℕ → List Ptr) → Ptr → Type 0
IsFresh h lists cb = (cb ≢ null) × ((i : ℕ) → IsCode h i → has cb (lists i) ≡ false)

entries-frame :
    (h g : Hooks) (xs : List Ptr)
    → ((a : Ptr) → has a xs ≡ true → (g.hf_func a ≡ h.hf_func a) × (g.hf_data a ≡ h.hf_data a))
    → entries g xs ≡ entries h xs
entries-frame h g [] same = refl
entries-frame h g (x ∷ xs) same =
    let (f, d) = same x (has_head x xs) in
    rw (f, d)
      (ap (◌∷◌ (h.hf_func x, h.hf_data x)) (entries-frame h g xs (λ a i. same a (ground arith))))

-- Two writes at different places.
write-swap :
    (f : Ptr → Ptr) (x y v w a : Ptr)
    → (x == y) ≡ false
    → write (write f x v) y w a ≡ write (write f y w) x v a
write-swap f x y v w a o = elim (Bool-cases (a == x)) [
  | inl same ↦ rw (same, ap (λ z. z == y) (==→eq a x same) ∙ o) refl
  | inr other ↦ rw other refl
]

-- The bucket after a function was added to the list of a code.
module _ (h : Hooks) (i cb : Ptr) (nn : cb ≢ null) where
  -- The old head, if there is one, points back to the new node.
  abbrev head_prev : Ptr → Ptr
  head_prev = if h.hb_hooks i == null then h.hf_prev else write h.hf_prev (h.hb_hooks i) cb

  abbrev added : Hooks
  added = record h {
    hf_prev = write head_prev cb null;
    hf_next = write h.hf_next cb (h.hb_hooks i);
    hb_hooks = write h.hb_hooks i cb;
  }

  -- Its own list.
  added-own :
      (xs : List Ptr)
      → has cb xs ≡ false
      → IsList (links h) (h.hb_hooks i) xs
      → IsList (links added) cb (cb ∷ xs)
  added-own [] out is = record {
    starts = refl;
    links =
        (nn, write_self head_prev cb null, write_self h.hf_next cb (h.hb_hooks i) ∙ is.starts, tt);
    distinct = (refl, tt);
  }
  added-own (x ∷ a) out is =
      let other = ne_of_has x cb (x ∷ a) (has_head x a) out in
      record {
        starts = refl;
        links =
            Chain-frame (ahead (links h) null cb x) (links added) null (cb ∷ x ∷ a) null
              (λ q j. prevs q other) (λ q j. ap (λ z. write h.hf_next cb z q) is.starts)
              (Chain-ahead (links h) null x a cb null nn out is.distinct is.links);
        distinct = (out, is.distinct);
      }
    where
      prevs :
          (q : Ptr) → (x == cb) ≡ false → added.hf_prev q ≡ write (write h.hf_prev cb null) x cb q
      prevs q other =
          ap (λ z. write (if z == null then h.hf_prev else write h.hf_prev z cb) cb null q)
            is.starts
          ∙ ap (λ b. write (if b then h.hf_prev else write h.hf_prev x cb) cb null q)
              (ne→== x null is.links.0)
          ∙ write-swap h.hf_prev x cb cb null q other

  -- A list of other nodes.
  added-other :
      (own ys : List Ptr) (first : Ptr)
      → IsList (links h) (h.hb_hooks i) own
      → has cb ys ≡ false
      → ((a : Ptr) → has a own ≡ true → has a ys ≡ false)
      → IsList (links h) first ys
      → IsList (links added) first ys
  added-other own ys first mine out apart is = record {
    starts = is.starts;
    links =
        Chain-frame (links h) (links added) null ys null
          (λ q j.
            write_other head_prev cb null q (ne_of_has q cb ys j out) ∙ prevs own q j mine apart)
          (λ q j. write_other h.hf_next cb (h.hb_hooks i) q (ne_of_has q cb ys j out)) is.links;
    distinct = is.distinct;
  }
    where
      prevs :
          (own : List Ptr) (q : Ptr)
          → has q ys ≡ true
          → IsList (links h) (h.hb_hooks i) own
          → ((a : Ptr) → has a own ≡ true → has a ys ≡ false)
          → (if h.hb_hooks i == null then h.hf_prev else write h.hf_prev (h.hb_hooks i) cb) q
            ≡ h.hf_prev q
      prevs [] q j mine apart =
          ap (λ z. (if z == null then h.hf_prev else write h.hf_prev z cb) q) mine.starts
      prevs (x ∷ own) q j mine apart =
          ap (λ z. (if z == null then h.hf_prev else write h.hf_prev z cb) q) mine.starts
          ∙ ap (λ b. (if b then h.hf_prev else write h.hf_prev x cb) q) (ne→== x null mine.links.0)
          ∙ write_other h.hf_prev x cb q (ne_of_has q x ys j (apart x (has_head x own)))

-- What a registration promises, where the bucket offered `b`.
abbrev pub RegisteredAt : Option ℕ → ℕ → ℕ → Ptr → Hooks → (ℕ → List (ℕ × ℕ)) → ℤ × Hooks → Type 0
RegisteredAt none func data_of cb h b r = (r.0 ≡ kernel_error_value) × (r.1 ≡ h)
RegisteredAt (some i) func data_of cb h b r =
    if cb == null
    then (r.0 ≡ kernel_error_value) × (r.1 ≡ h)
    else (r.0 ≡ pos 0) × Offers r.1 (write b i ((func, data_of) ∷ b i))

abbrev pub Registered : ℤ → ℕ → ℕ → Ptr → Hooks → (ℕ → List (ℕ × ℕ)) → ℤ × Hooks → Type 0
Registered code func data_of cb h b r =
    RegisteredAt (in_bounds code h.hb_hook_count) func data_of cb h b r

-- An index in bounds is a code of the bucket.
abbrev AsCode : Hooks → Option ℕ → Type 0
AsCode h none = Unit {0}
AsCode h (some i) = IsCode h i

pub in_bounds-IsCode :
    (h : Hooks) (code : ℤ) (i : ℕ) → in_bounds code h.hb_hook_count ≡ some i → IsCode h i
in_bounds-IsCode h code i e = subst (AsCode h) e (as_code code)
  where
    as_code : (code : ℤ) → AsCode h (in_bounds code h.hb_hook_count)
    as_code (negsuc c) = tt
    as_code (pos c) =
        if-elim (AsCode h) (less_int (pos c) h.hb_hook_count) (some c) none (λ t. t) (λ _. tt)

-- The bucket after `hook_register` of a function in bounds.
module _ (h : Hooks) (i func data_of cb : ℕ) (lists : ℕ → List Ptr) (is : IsBucket h lists)
    (code : IsCode h i) (fresh : IsFresh h lists cb) where
  abbrev pub registered : Hooks
  registered = record (added h i cb fresh.0) {
    hf_func = write h.hf_func cb func;
    hf_data = write h.hf_data cb data_of;
  }

  abbrev pub new_lists : ℕ → List Ptr
  new_lists = write lists i (cb ∷ lists i)

  own-apart :
      (j a : ℕ)
      → IsCode h j
      → (i == j) ≡ false
      → has a (cb ∷ lists i) ≡ true
      → has a (lists j) ≡ false
  own-apart j a code_j other mem = elim (Bool-cases (a == cb)) [
    | inl same ↦ ap (λ x. has x (lists j)) (==→eq a cb same) ∙ fresh.1 j code_j
    | inr differs ↦
        is.apart i j a code code_j other (ap (λ b. b || has a (lists i)) (sym differs) ∙ mem)
  ]

  other-apart :
      (j a : ℕ)
      → IsCode h j
      → (j == i) ≡ false
      → has a (lists j) ≡ true
      → has a (cb ∷ lists i) ≡ false
  other-apart j a code_j other mem =
      ap (λ b. b || has a (lists i)) (ne_of_has a cb (lists j) mem (fresh.1 j code_j))
      ∙ is.apart j i a code_j code other mem

  pub registered-IsBucket : IsBucket registered new_lists
  registered-IsBucket = record {
    list_of = λ j code_j. elim (Bool-cases (j == i)) [
      | inl same ↦ rw same (
          as_registered cb (cb ∷ lists i)
            (added-own h i cb fresh.0 (lists i) (fresh.1 i code) (is.list_of i code)))
      | inr other ↦ rw other (
          as_registered (h.hb_hooks j) (lists j) (
            added-other h i cb fresh.0 (lists i) (lists j) (h.hb_hooks j) (is.list_of i code)
              (fresh.1 j code_j) (λ a. is.apart i j a code code_j (==-sym j i other))
              (is.list_of j code_j)))
    ];
    apart = λ j k a code_j code_k differ mem. elim (Bool-cases (j == i)) [
      | inl same ↦ elim (Bool-cases (k == i)) [
        | inl same' ↦ absurd (
            false≢true (
              sym differ
              ∙ ap (λ x. x == k) (==→eq j i same)
              ∙ ap (λ x. i == x) (==→eq k i same')
              ∙ ==-refl i))
        | inr other ↦ rw other (own-apart k a code_k (==-sym k i other) (rw same at mem))
      ]
      | inr other ↦ elim (Bool-cases (k == i)) [
        | inl same ↦ rw same (other-apart j a code_j other (rw other at mem))
        | inr other' ↦ rw other' (is.apart j k a code_j code_k differ (rw other at mem))
      ]
    ];
  }
    where
      as_registered :
          (first : Ptr) (xs : List Ptr)
          → IsList (links (added h i cb fresh.0)) first xs
          → IsList (links registered) first xs
      as_registered first xs l = record {
        starts = l.starts;
        links = l.links;
        distinct = l.distinct;
      }

  pub registered-entries :
      (b : ℕ → List (ℕ × ℕ))
      → ((j : ℕ) → IsCode h j → entries h (lists j) ≡ b j)
      → (j : ℕ) → IsCode h j
      → entries registered (new_lists j) ≡ write b i ((func, data_of) ∷ b i) j
  registered-entries b offers j code_j = elim (Bool-cases (j == i)) [
    | inl same ↦ rw (same, ==-refl cb) (ap (◌∷◌ (func, data_of)) (unchanged i code ∙ offers i code))
    | inr other ↦ rw other (unchanged j code_j ∙ offers j code_j)
  ]
    where
      unchanged : (j : ℕ) → IsCode h j → entries registered (lists j) ≡ entries h (lists j)
      unchanged j code_j = entries-frame h registered (lists j) (λ a m. (
        write_other h.hf_func cb func a (ne_of_has a cb (lists j) m (fresh.1 j code_j)),
        write_other h.hf_data cb data_of a (ne_of_has a cb (lists j) m (fresh.1 j code_j)),
      ))

-- `hook_register` of a code out of bounds, or without memory, reports the error and changes nothing;
-- else, where `kalloc` gave a node that is in no list, the function is the first that the bucket
-- calls for the code, and for the other codes it calls what it did.
pub hook_register-Registered :
    (code : ℤ) (func data_of cb : ℕ) (h : Hooks) (lists : ℕ → List Ptr)
    → IsBucket h lists
    → ((i : ℕ) → IsCode h i → has cb (lists i) ≡ false)
    → Registered code func data_of cb h
        (λ i. entries h (lists i))
        (hook_register code func data_of cb h)
unfolding register_at hook_add
hook_register-Registered code func data_of cb h lists is fresh =
    elim (Option-cases (in_bounds code h.hb_hook_count)) [
      | inl out ↦ rw out (refl, refl)
      | inr (i, e) ↦
          let code_i = in_bounds-IsCode h code i e in
          elim (Bool-cases (cb == null)) [
            | inl no_memory ↦ rw (e, no_memory) (refl, refl)
            | inr given ↦
                rw (e, given)
                  (let nn : cb ≢ null =
                      λ z. absurd (false≢true (sym given ∙ ap (λ x. x == null) z)) in
                    (
                      refl,
                      (
                        new_lists h i func data_of cb lists is code_i (nn, fresh),
                        registered-IsBucket h i func data_of cb lists is code_i (nn, fresh),
                        registered-entries h i func data_of cb lists is code_i (nn, fresh)
                            (λ j. entries h (lists j)) (λ j _. refl),
                      ),
                    ))
          ]
    ]
