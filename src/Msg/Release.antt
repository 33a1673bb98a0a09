-- ===== src/Msg/Release.antt =====
-- `__msg_release` of microkernel/msg.c.
use mathlib.Core.Path.{subst}
use neftis.Base.{
  ℕ, ◌-◌, ◌<◌, true, false, not, ◌≡◌, ◌∙◌, refl, sym, ap, inl, inr, Option, none, some, List, ◌∷◌,
  ◌==◌, ltb, if◌then◌else◌, has, Bool-cases, arith, if-false, if-true,
}
use neftis.Sched.{Result, ok, ◌>>=◌, Tid, Returns, Returns-bind, if-Returns}
use neftis.Msg.{Ptr, null, msgq_release_id, msg_get_ptr}
use neftis.Msg.Ids.{HasFree, msgq_release_id-HasFree}
use neftis.Msg.Queue.{
  Ret, val, err, Store, Msgq, World, put, put_self, set_queue, msg_destroy, ref_close,
  msg_body_destroy, ebadf,
}
use neftis.Msg.Calls.{msg_release, msg_unmap_m}

-- What unmapping keeps.
abbrev Same : Store → Store → Type 0
Same s s' =
    (s'.m_body ≡ s.m_body)
    × (s'.refs ≡ s.refs)
    × (s'.alive ≡ s.alive)
    × (s'.closed ≡ s.closed)
    × (s'.freed ≡ s.freed)
    × (s'.mb_bytes ≡ s.mb_bytes)
    × (s'.mb_micro_size ≡ s.mb_micro_size)

unmap-Same :
    (m : Ptr) (s : Store) → Same s (if not (s.m_virt m == 0) then (msg_unmap_m m s).1 else s)
unfolding msg_unmap_m
unmap-Same m s = elim (Bool-cases (not (s.m_virt m == 0))) [
  | inr e ↦ rw e (refl, refl, refl, refl, refl, refl, refl)
  | inl e ↦ rw e (elim (Bool-cases (ltb 0 (s.mb_size (s.m_body m)))) [
    | inl f ↦ rw f (refl, refl, refl, refl, refl, refl, refl)
    | inr f ↦ rw f (refl, refl, refl, refl, refl, refl, refl)
  ])
]

-- The message is freed and one reference to its body closed; the last one destroys the body, and no
-- other body is.
pub record IsDestroyed (m : Ptr) (s s' : Store) : Type 0 where
  pub freed : s'.freed ≡ m ∷ s.freed
  pub refs : s'.refs (s.m_body m) ≡ s.refs (s.m_body m) - 1
  pub closed : s'.closed ≡ (if ltb 1 (s.refs (s.m_body m)) then s.closed else s.m_body m ∷ s.closed)
  pub alive : s'.alive (s.m_body m) ≡ ltb 1 (s.refs (s.m_body m))
  pub others_alive : (b : Ptr) → (b == s.m_body m) ≡ false → s'.alive b ≡ s.alive b
  pub data_kept :
      (s'.m_body ≡ s.m_body) × (s'.mb_bytes ≡ s.mb_bytes) × (s'.mb_micro_size ≡ s.mb_micro_size)

-- The store without the body.
abbrev without : Ptr → Store → Store
without b s = record s { alive = put s.alive b false; closed = b ∷ s.closed }

record IsClosed (b : Ptr) (s s' : Store) : Type 0 where
  freed : s'.freed ≡ s.freed
  refs : s'.refs b ≡ s.refs b - 1
  closed : s'.closed ≡ (if ltb 1 (s.refs b) then s.closed else b ∷ s.closed)
  alive : s'.alive b ≡ ltb 1 (s.refs b)
  others_alive : (c : Ptr) → (c == b) ≡ false → s'.alive c ≡ s.alive c
  data_kept :
      (s'.m_body ≡ s.m_body) × (s'.mb_bytes ≡ s.mb_bytes) × (s'.mb_micro_size ≡ s.mb_micro_size)

destroys : (b : Ptr) (s : Store) → s.alive b ≡ true → msg_body_destroy b s ≡ ok (without b s)
unfolding msg_body_destroy
destroys b s there = if-true _ _ there

close-IsClosed : (b : Ptr) (s : Store) → s.alive b ≡ true → Returns (IsClosed b s) (ref_close b s)
unfolding ref_close
close-IsClosed b s there =
    if-Returns (IsClosed b s) (s.refs b == 0) _ _
      (λ none. subst (Returns (IsClosed b s)) (sym (destroys b s there)) (record {
        freed = refl;
        data_kept = (refl, refl, refl);
        refs = zero_less (s.refs b) none;
        closed = sym (if-false _ _ (few (s.refs b) 0 none (omega arith)));
        alive = put_self s.alive b false ∙ sym (few (s.refs b) 0 none (omega arith));
        others_alive = λ c h. if-false _ _ h;
      }))
      (λ some.
        if-Returns (IsClosed b s) (s.refs b == 1) _ _
          (λ one.
            let s1 : Store = record s { refs = put s.refs b (s.refs b - 1) } in
            subst (Returns (IsClosed b s)) (sym (destroys b s1 there)) (record {
              freed = refl;
              data_kept = (refl, refl, refl);
              refs = put_self s.refs b _;
              closed = sym (if-false _ _ (few (s.refs b) 1 one (omega arith)));
              alive = put_self s.alive b false ∙ sym (few (s.refs b) 1 one (omega arith));
              others_alive = λ c h. if-false _ _ h;
            }))
          (λ many. record {
            freed = refl;
            data_kept = (refl, refl, refl);
            refs = put_self s.refs b _;
            closed =
                sym (ap (λ c. if c then s.closed else b ∷ s.closed) (several (s.refs b) some many));
            alive = there ∙ sym (several (s.refs b) some many);
            others_alive = λ c h. refl;
          }))
  where
    zero_less : (n : ℕ) → (n == 0) ≡ true → n ≡ n - 1
    zero_less n h = ground arith

    few : (n k : ℕ) → (n == k) ≡ true → k < 2 → ltb 1 n ≡ false
    few n k h l = ground arith

    several : (n : ℕ) → (n == 0) ≡ false → (n == 1) ≡ false → ltb 1 n ≡ true
    several n h i = ground arith

destroy-IsDestroyed :
    (m : Ptr) (s : Store)
    → s.alive (s.m_body m) ≡ true
    → Returns (IsDestroyed m s) (msg_destroy m s)
unfolding msg_destroy
destroy-IsDestroyed m s there =
    Returns-bind (IsDestroyed m s) (ref_close (s.m_body m) s) _
      (close-IsClosed (s.m_body m) s there)
      (λ s' c. record {
        freed = ap (◌∷◌ m) c.freed;
        refs = c.refs;
        closed = c.closed;
        alive = c.alive;
        others_alive = c.others_alive;
        data_kept = c.data_kept;
      })

Same-IsDestroyed : (m : Ptr) (s u s' : Store) → Same s u → IsDestroyed m u s' → IsDestroyed m s s'
Same-IsDestroyed m s u s' (body, refs, alive, closed, freed, bytes, size) d = record {
  freed = d.freed ∙ ap (◌∷◌ m) freed;
  refs =
      subst (λ b. s'.refs b ≡ s.refs b - 1) (ap (λ f. f m) body)
        (d.refs ∙ ap (λ f. f (u.m_body m) - 1) refs);
  closed = d.closed ∙ rw (body, refs, closed);
  alive =
      subst (λ b. s'.alive b ≡ ltb 1 (s.refs b)) (ap (λ f. f m) body)
        (d.alive ∙ ap (λ f. ltb 1 (f (u.m_body m))) refs);
  others_alive = λ b h. d.others_alive b (ap (λ f. b == f m) body ∙ h) ∙ ap (λ f. f b) alive;
  data_kept = (d.data_kept.0 ∙ body, d.data_kept.1 ∙ bytes, d.data_kept.2 ∙ size);
}

-- The identifier is the first free one; the incoming messages stay.
abbrev pub Freed : ℕ → List ℕ → Msgq → Option Msgq → Type 0
Freed id xs q none = ⊥
Freed id xs q (some q') = HasFree q'.table (id ∷ xs) × (q'.incoming ≡ q.incoming)

module _ (t : Tid) (q : Msgq) (id : ℕ) (w : World) (m : Ptr) (xs : List ℕ)
    (named : msg_get_ptr q.table id ≡ m) (there : (m == null) ≡ false) where
  abbrev pub Released : Ret × World → Type 0
  Released (ret, w') =
      (ret ≡ val 0)
      × Freed id xs q (w'.queue t)
      × IsDestroyed m w.store w'.store
      × ((u : Tid) → (u == t) ≡ false → w'.queue u ≡ w.queue u)

  -- A message of the table that is released, whose body was not destroyed before, is freed and its reference
  -- to the body closed, the last one with the body, and its identifier is the next that is given out;
  -- no assertion fails.
  pub msg_release-Released :
      w.store.alive (w.store.m_body m) ≡ true
      → HasFree q.table xs
      → id < 64
      → has id xs ≡ false
      → Returns Released (msg_release t q id w)
  unfolding msg_release
  msg_release-Released there_is v small used =
      let s = w.store in
      let u : Store = if not (s.m_virt m == 0) then (msg_unmap_m m s).1 else s in
      let same : Same s u = unmap-Same m s in
      let rest : Ptr → Result (Ret × World) = λ n.
        let u = if not (s.m_virt n == 0) then (msg_unmap_m n s).1 else s in
        msgq_release_id q.table id >>= λ table. msg_destroy n u >>= λ s'.
        ok (val 0, set_queue t (record q { table = table }) (record w { store = s' })) in
      subst (Returns Released)
        (sym (ap (λ n. if n == null then ok (err ebadf, w) else rest n) named ∙ if-false _ _ there))
        (Returns-bind Released (msgq_release_id q.table id) _
          (msgq_release_id-HasFree q.table xs id v small used)
          (λ table free.
            Returns-bind Released (msg_destroy m u) _
              (destroy-IsDestroyed m u (rw (same.0, same.2) there_is))
              (λ s' d. (
                refl,
                subst (Freed id xs q) (sym (put_self w.queue t _)) (free, refl),
                Same-IsDestroyed m s u s' same d,
                λ u h. if-false _ _ h,
              ))))
