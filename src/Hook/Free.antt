-- ===== src/Hook/Free.antt =====
-- `hook_bucket_new` and `hook_bucket_free` of common/hook.c.
use mathlib.Core.Bool.{false≢true}
use mathlib.Core.Path.{subst}
use neftis.Base.Partial.{◌>>=◌}
use neftis.Base.{
  ℕ, zero, suc, ◌+◌, ◌<◌, ◌≤◌, ◌≡◌, ◌∙◌, refl, sym, ap, true, List, [], ◌∷◌, ◌++◌, length, arith,
  ◌==◌, if-true, if-false, if-elim, Option, none, some, ne→==, ltb, lt→ltb, push, push-append,
}
use neftis.Links.Chain.{Chain, head_or}
use neftis.Hook.{
  Ptr, null, ℤ, pos, Hooks, less_int, in_bounds, hook_bucket_new, free_from, free_at, free_codes,
  count_of, hook_bucket_free,
}
use neftis.Hook.Bucket.{links, IsCode, IsBucket}

-- Nodes were freed, one after the other; the lists are as they were.
pub record Freed (h : Hooks) (xs : List Ptr) (h' : Hooks) : Type 0 where
  pub frees : h'.freed ≡ push xs h.freed
  pub nexts : h'.hf_next ≡ h.hf_next
  pub heads : h'.hb_hooks ≡ h.hb_hooks
  pub counts : h'.hb_hook_count ≡ h.hb_hook_count

abbrev pub Frees : Hooks → List Ptr → Option Hooks → Type 0
Frees h xs none = ⊥
Frees h xs (some h') = Freed h xs h'

-- First some, then others.
Frees-append :
    (h g : Hooks) (xs ys : List Ptr) (r : Option Hooks)
    → Freed h xs g
    → Frees g ys r
    → Frees h (xs ++ ys) r
Frees-append h g xs ys none f f' = f'
Frees-append h g xs ys (some g') f f' = record {
  frees = f'.frees ∙ ap (push ys) f.frees ∙ sym (push-append xs ys h.freed);
  nexts = f'.nexts ∙ f.nexts;
  heads = f'.heads ∙ f.heads;
  counts = f'.counts ∙ f.counts;
}

free_from-Frees :
    (fuel : ℕ) (h : Hooks) (m : Hooks) (b : Ptr) (xs : List Ptr)
    → h.hf_next ≡ m.hf_next
    → Chain (links m) b xs null
    → length xs < fuel
    → Frees h xs (free_from fuel (head_or xs null) h)
unfolding free_from
free_from-Frees zero h m b xs same ch enough = elim enough [ ]
free_from-Frees (suc fuel) h m b [] same ch enough = record {
  frees = refl;
  nexts = refl;
  heads = refl;
  counts = refl;
}
free_from-Frees (suc fuel) h m b (x ∷ xs) same ch enough =
    let h1 : Hooks = record h { freed = x ∷ h.freed } in
    subst (Frees h (x ∷ xs))
      (sym (
        if-false (some h) (free_from fuel (h.hf_next x) h1) (ne→== x null ch.0)
        ∙ ap (λ q. free_from fuel q h1) (ap (λ f. f x) same ∙ ch.2)))
      (Frees-append h h1 (x ∷ []) xs (free_from fuel (head_or xs null) h1)
        (record { frees = refl; nexts = refl; heads = refl; counts = refl })
        (free_from-Frees fuel h1 m x xs same ch.3 (omega (arith, enough))))

-- The functions of `n` codes from `i` on.
abbrev pub all_lists : ℕ → ℕ → (ℕ → List Ptr) → List Ptr
all_lists zero i lists = []
all_lists (suc n) i lists = lists i ++ all_lists n (suc i) lists

Frees-bind :
    (h : Hooks) (xs ys : List Ptr) (r : Option Hooks) (k : Hooks → Option Hooks)
    → Frees h xs r
    → ((g : Hooks) → Freed h xs g → Frees g ys (k g))
    → Frees h (xs ++ ys) (r >>= k)
Frees-bind h xs ys none k f next = f
Frees-bind h xs ys (some g) k f next = Frees-append h g xs ys (k g) f (next g f)

module _ (m : Hooks) (lists : ℕ → List Ptr) (is : IsBucket m lists) (fuel count : ℕ)
    (counts : m.hb_hook_count ≡ pos count) (enough : (i : ℕ) → length (lists i) < fuel) where
  free_codes-Frees :
      (n i : ℕ) (h : Hooks)
      → i + n ≤ count
      → h.hf_next ≡ m.hf_next
      → h.hb_hooks ≡ m.hb_hooks
      → h.hb_hook_count ≡ m.hb_hook_count
      → Frees h (all_lists n i lists) (free_codes fuel n i h)
  unfolding free_codes
  free_codes-Frees zero i h low nexts heads same = record {
    frees = refl;
    nexts = refl;
    heads = refl;
    counts = refl;
  }
  free_codes-Frees (suc n) i h low nexts heads same =
      let in_range : ltb i count ≡ true = lt→ltb i count (omega (arith, low)) in
      let code : IsCode m i = ap (less_int (pos i)) counts ∙ in_range in
      let l = is.list_of i code in
      let inside : in_bounds (pos i) h.hb_hook_count ≡ some i =
        ap (in_bounds (pos i)) (same ∙ counts) ∙ if-true (some i) none in_range in
      Frees-bind h (lists i) (all_lists n (suc i) lists)
        (free_at fuel (in_bounds (pos i) h.hb_hook_count) h) (free_codes fuel n (suc i))
        (subst (Frees h (lists i))
          (sym (
            ap (λ o. free_at fuel o h) inside
            ∙ ap (λ q. free_from fuel q h) (ap (λ f. f i) heads ∙ l.starts)))
          (free_from-Frees fuel h m null (lists i) nexts l.links (enough i)))
        (λ g f.
          free_codes-Frees n (suc i) g (omega (arith, low)) (f.nexts ∙ nexts) (f.heads ∙ heads)
            (f.counts ∙ same))

  -- `hook_bucket_free` of a well-formed bucket, with more fuel than a code has functions, frees the
  -- functions of every code, in order, and the bucket last.
  pub hook_bucket_free-Frees :
      (bucket : Ptr)
      → Frees m (all_lists count 0 lists ++ bucket ∷ []) (hook_bucket_free fuel bucket m)
  unfolding hook_bucket_free
  hook_bucket_free-Frees bucket =
      Frees-bind m (all_lists count 0 lists) (bucket ∷ [])
        (free_codes fuel (count_of m.hb_hook_count) 0 m)
        (λ h'. some (record h' { freed = bucket ∷ h'.freed }))
        (subst (λ n. Frees m (all_lists count 0 lists) (free_codes fuel n 0 m))
          (sym (ap count_of counts)) (free_codes-Frees count 0 m (omega arith) refl refl refl))
        (λ g f. record { frees = refl; nexts = refl; heads = refl; counts = refl })

-- A new bucket is well-formed and without functions, and has as many codes as were asked for.
abbrev IsNewBucket : ℤ → Option Hooks → Type 0
IsNewBucket hooks none = Unit {0}
IsNewBucket hooks (some g) = IsBucket g (λ i. []) × (g.hb_hook_count ≡ hooks)

pub hook_bucket_new-IsBucket :
    (hooks : ℤ) (new : Ptr) (h : Hooks) → IsNewBucket hooks (hook_bucket_new hooks new h)
hook_bucket_new-IsBucket hooks new h =
    if-elim (IsNewBucket hooks) (less_int hooks (pos 1)) none _ (λ _. tt)
      (λ _.
        if-elim (IsNewBucket hooks) (new == null) none _ (λ _. tt)
          (λ _. (
            record {
              list_of = λ i code. record {
                starts = if-true null (h.hb_hooks i) code;
                links = tt;
                distinct = tt;
              };
              apart = λ i j a code_i code_j other mem. absurd (false≢true mem);
            },
            refl,
          )))
