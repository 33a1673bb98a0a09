-- ===== src/Hook/Trigger.antt =====
-- What `trigger_hook` of common/hook.c calls, and how a registration changes it.
use neftis.Base.Partial.{◌>>=◌}
use neftis.Base.{
  ℕ, zero, suc, ◌+◌, ◌<◌, ◌≡◌, ◌≢◌, ◌∙◌, refl, ap, true, false, Bool, List, [], ◌∷◌, length, arith,
  ◌==◌, if◌then◌else◌, if-true, if-false, Bool-cases, Option, none, some, Option-cases, inl, inr,
  ne→==, write_self, has,
}
use neftis.Links.Chain.{Chain, head_or}
use neftis.Hook.{
  Ptr, null, ℤ, pos, kernel_error_value, Hooks, in_bounds, is_lock_chain, hook_register,
  trigger_from, trigger_at, trigger_hook, register_at, hook_add,
}
use neftis.Hook.Bucket.{
  links, entries, IsCode, IsBucket, in_bounds-IsCode, registered, new_lists, registered-IsBucket,
  registered-entries,
}

-- The registration in bounds, and the lengths after it.
module _ (h : Hooks) (i func data_of cb : ℕ) (lists : ℕ → List Ptr) (is : IsBucket h lists)
    (code : IsCode h i) (nn : cb ≢ null)
    (fresh : (j : ℕ) → IsCode h j → has cb (lists j) ≡ false) where
  register-run :
      (hook_register (pos i) func data_of cb h).1
      ≡ registered h i func data_of cb lists is code (nn, fresh)
  unfolding register_at hook_add
  register-run = rw (code, ne→== cb null nn) refl

  short :
      (fuel : ℕ)
      → ((j : ℕ) → IsCode h j → length (lists j) + 1 < fuel)
      → (j : ℕ) → IsCode h j
      → length (new_lists h i func data_of cb lists is code (nn, fresh) j) < fuel
  short fuel enough j code_j = elim (Bool-cases (j == i)) [
    | inl same ↦ rw same (omega (arith, enough i code))
    | inr other ↦ rw other (omega (arith, enough j code_j))
  ]

module _ (World : Type 0) (call : ℕ → ℕ → ℕ → ℕ → World → ℤ × World) where
  -- The functions are called one after the other, until one locks the chain; those called are counted.
  abbrev pub fire : ℕ → ℕ → List (ℕ × ℕ) → ℕ → World → ℕ × World
  fire code arg [] acum w = (acum, w)
  fire code arg ((f, d) ∷ fs) acum w =
      let r = call f code d arg w in
      if is_lock_chain r.0 then (suc acum, r.1) else fire code arg fs (suc acum) r.1

  trigger_from-fire :
      (fuel code arg : ℕ) (h : Hooks) (b : Ptr) (xs : List Ptr) (acum : ℕ) (w : World)
      → Chain (links h) b xs null
      → length xs < fuel
      → trigger_from World call fuel code arg h (head_or xs null) acum w
        ≡ some (fire code arg (entries h xs) acum w)
  unfolding trigger_from
  trigger_from-fire zero code arg h b xs acum w ch enough = elim enough [ ]
  trigger_from-fire (suc fuel) code arg h b [] acum w ch enough = refl
  trigger_from-fire (suc fuel) code arg h b (x ∷ xs) acum w ch enough =
      let r = call (h.hf_func x) code (h.hf_data x) arg w in
      let rest =
        trigger_from-fire fuel code arg h x xs (suc acum) r.1 ch.3 (omega (arith, enough)) in
      if-false _ _ (ne→== x null ch.0)
      ∙ ap
          (λ q.
            if is_lock_chain r.0
            then some (suc acum, r.1)
            else trigger_from World call fuel code arg h q (suc acum) r.1)
          ch.2
      ∙ ap (λ q. if is_lock_chain r.0 then some (suc acum, r.1) else q) rest
      ∙ if-some (is_lock_chain r.0) (suc acum, r.1) (fire code arg (entries h xs) (suc acum) r.1)
    where
      if-some :
          (c : Bool) (y z : ℕ × World) → (if c then some y else some z) ≡ some (if c then y else z)
      if-some true y z = refl
      if-some false y z = refl

  -- What a trigger does to a bucket that offers `b`.
  abbrev pub triggered : Option ℕ → ℕ → (ℕ → List (ℕ × ℕ)) → World → ℤ × World
  triggered none arg b w = (kernel_error_value, w)
  triggered (some i) arg b w = (pos (fire i arg (b i) 0 w).0, (fire i arg (b i) 0 w).1)

  -- `trigger_hook` in a well-formed bucket, with more fuel than the code has functions, calls them in
  -- order until one returns HOOK_LOCK_CHAIN, and returns how many it called; a code out of bounds is
  -- an error, and nothing is called.
  pub trigger_hook-fire :
      (fuel : ℕ) (code : ℤ) (arg : ℕ) (h : Hooks) (lists : ℕ → List Ptr) (w : World)
      → IsBucket h lists
      → ((i : ℕ) → IsCode h i → length (lists i) < fuel)
      → trigger_hook World call fuel code arg h w
        ≡ some (triggered (in_bounds code h.hb_hook_count) arg (λ i. entries h (lists i)) w)
  unfolding trigger_at
  trigger_hook-fire fuel code arg h lists w is enough =
      elim (Option-cases (in_bounds code h.hb_hook_count)) [
        | inl out ↦ rw out refl
        | inr (i, e) ↦
            let code_i = in_bounds-IsCode h code i e in
            let l = is.list_of i code_i in
            rw e (
              ap (λ o. o >>= λ r. some (pos r.0, r.1))
                (ap (λ q. trigger_from World call fuel i arg h q 0 w) l.starts
                  ∙ trigger_from-fire fuel i arg h null (lists i) 0 w l.links (enough i code_i)))
      ]

  -- The count goes along.
  fire-suc :
      (code arg : ℕ) (fs : List (ℕ × ℕ)) (acum : ℕ) (w : World)
      → fire code arg fs (suc acum) w
        ≡ (suc (fire code arg fs acum w).0, (fire code arg fs acum w).1)
  fire-suc code arg [] acum w = refl
  fire-suc code arg ((f, d) ∷ fs) acum w =
      let r = call f code d arg w in
      elim (Bool-cases (is_lock_chain r.0)) [
        | inl locks ↦ rw locks refl
        | inr goes ↦ rw goes (fire-suc code arg fs (suc acum) r.1)
      ]

  -- A trigger after a registration calls the new function first; where that does not lock the chain,
  -- the trigger goes on as it would have done without it, and counts one more. The code is in bounds,
  -- and `kalloc` gave a node that is in no list.
  pub register-trigger :
      (fuel i arg func data_of cb : ℕ) (h : Hooks) (lists : ℕ → List Ptr) (w : World)
      → IsBucket h lists
      → IsCode h i
      → cb ≢ null
      → ((j : ℕ) → IsCode h j → has cb (lists j) ≡ false)
      → ((j : ℕ) → IsCode h j → length (lists j) + 1 < fuel)
      → trigger_hook World call fuel (pos i) arg (hook_register (pos i) func data_of cb h).1 w
        ≡ some (
            let r = call func i data_of arg w in
            let others = fire i arg (entries h (lists i)) 0 r.1 in
            if is_lock_chain r.0 then (pos 1, r.1) else (pos (suc others.0), others.1))
  register-trigger fuel i arg func data_of cb h lists w is code nn fresh enough =
      let here : in_bounds (pos i) h.hb_hook_count ≡ some i = if-true (some i) none code in
      let h' : Hooks = registered h i func data_of cb lists is code (nn, fresh) in
      let lists' = new_lists h i func data_of cb lists is code (nn, fresh) in
      let r = call func i data_of arg w in
      ap (λ g. trigger_hook World call fuel (pos i) arg g w)
        (register-run h i func data_of cb lists is code nn fresh)
      ∙ trigger_hook-fire fuel (pos i) arg h' lists' w
          (registered-IsBucket h i func data_of cb lists is code (nn, fresh))
          (short h i func data_of cb lists is code nn fresh fuel enough)
      ∙ ap some (
          ap (λ o. triggered o arg (λ j. entries h' (lists' j)) w) here
          ∙ ap (λ fs. (pos (fire i arg fs 0 w).0, (fire i arg fs 0 w).1))
              (registered-entries h i func data_of cb lists is code (nn, fresh)
                  (λ j. entries h (lists j)) (λ j _. refl) i code
                ∙ write_self (λ j. entries h (lists j)) i ((func, data_of) ∷ entries h (lists i)))
          ∙ last_step (is_lock_chain r.0) r.1)
    where
      counted : ℕ × World → ℤ × World
      counted q = (pos q.0, q.1)

      after : World → ℕ × World
      after w' = fire i arg (entries h (lists i)) 0 w'

      last_step :
          (b : Bool) (w' : World)
          → counted (if b then (1, w') else fire i arg (entries h (lists i)) 1 w')
            ≡ (if b then (pos 1, w') else (pos (suc (after w').0), (after w').1))
      last_step true w' = refl
      last_step false w' = ap counted (fire-suc i arg (entries h (lists i)) 0 w')
