-- ===== src/Hook/Tests.antt =====
-- Runs of common/hook.c, and its theorems at a concrete bucket.
use mathlib.Core.Bool.{false≢true}
use neftis.Base.{
  ℕ, ◌≡◌, ◌+◌, ◌<◌, refl, ap, sym, ◌∙◌, false, List, [], ◌∷◌, length, arith, ◌==◌, if◌then◌else◌,
  some, write, has, Bool-cases, inl, inr,
}
use neftis.Links.Chain.{IsList}
use neftis.Hook.{Ptr, ℤ, pos, Hooks, hook_register, trigger_hook, hook_bucket_free}
use neftis.Hook.Bucket.{links, IsBucket, Registered, hook_register-Registered, entries}
use neftis.Hook.Trigger.{trigger_hook-fire, register-trigger}
use neftis.Hook.Free.{Frees, hook_bucket_free-Frees}

-- A bucket of two codes: the first has the functions 7 and 8, at 20 and 21.
abbrev bucket : Hooks
bucket = record {
  hb_hook_count = pos 2;
  hb_hooks = write (λ i. 0) 0 20;
  hf_func = write (write (λ p. 0) 20 7) 21 8;
  hf_data = write (write (λ p. 0) 20 70) 21 80;
  hf_next = write (λ p. 0) 20 21;
  hf_prev = write (λ p. 0) 21 20;
  freed = [];
}

abbrev bucket_lists : ℕ → List Ptr
bucket_lists = write (λ i. []) 0 (20 ∷ 21 ∷ [])

first-IsList : IsList (links bucket) 20 (20 ∷ 21 ∷ [])
first-IsList = record {
  starts = refl;
  links = ((λ e. omega (arith, e)), refl, refl, ((λ e. omega (arith, e)), refl, refl, tt));
  distinct = (refl, (refl, tt));
}

bucket-IsBucket : IsBucket bucket bucket_lists
bucket-IsBucket = record {
  list_of = λ i code. elim (Bool-cases (i == 0)) [
    | inl same ↦ rw same first-IsList
    | inr other ↦ rw other (record { starts = refl; links = tt; distinct = tt })
  ];
  apart = λ i j a code_i code_j differ mem. elim (Bool-cases (j == 0)) [
    | inr other ↦ rw other refl
    | inl same ↦ elim (Bool-cases (i == 0)) [
      | inl same' ↦ ground (arith, same, same', differ)
      | inr other ↦
          absurd (false≢true (ap (λ b. has a (if b then 20 ∷ 21 ∷ [] else [])) (sym other) ∙ mem))
    ]
  ];
}

abbrev log_call : ℕ → ℕ → ℕ → ℕ → List ℕ → ℤ × List ℕ
log_call f code d arg w = (if f == 8 then pos 1 else pos 0, f ∷ w)

no_twenty_two : (i : ℕ) → has 22 (bucket_lists i) ≡ false
no_twenty_two i = elim (Bool-cases (i == 0)) [ inl same ↦ rw same refl | inr other ↦ rw other refl ]

short_lists : (i : ℕ) → length (bucket_lists i) + 1 < 4
short_lists i = elim (Bool-cases (i == 0)) [
  | inl same ↦ rw same (omega arith)
  | inr other ↦ rw other (omega arith)
]

hook_register-Registered_example :
    Registered
      (pos 0)
      9
      90
      22
      bucket
      (λ i. entries bucket (bucket_lists i))
      (hook_register (pos 0) 9 90 22 bucket)
hook_register-Registered_example =
    hook_register-Registered (pos 0) 9 90 22 bucket bucket_lists bucket-IsBucket
      (λ i code. no_twenty_two i)

trigger_hook-fire_example :
    trigger_hook (List ℕ) log_call 4 (pos 0) 5 bucket [] ≡ some (pos 2, 8 ∷ 7 ∷ [])
trigger_hook-fire_example =
    trigger_hook-fire (List ℕ) log_call 4 (pos 0) 5 bucket bucket_lists [] bucket-IsBucket
      (λ i code. omega (arith, short_lists i))

register-trigger_example :
    trigger_hook (List ℕ) log_call 4 (pos 0) 5 (hook_register (pos 0) 9 90 22 bucket).1 []
    ≡ some (pos 3, 8 ∷ 7 ∷ 9 ∷ [])
register-trigger_example =
    register-trigger (List ℕ) log_call 4 0 5 9 90 22 bucket bucket_lists [] bucket-IsBucket refl
      (λ e. omega (arith, e)) (λ i code. no_twenty_two i) (λ i code. short_lists i)

hook_bucket_free-Frees_example : Frees bucket (20 ∷ 21 ∷ 30 ∷ []) (hook_bucket_free 4 30 bucket)
hook_bucket_free-Frees_example =
    hook_bucket_free-Frees bucket bucket_lists bucket-IsBucket 4 2 refl
      (λ i. omega (arith, short_lists i)) 30
