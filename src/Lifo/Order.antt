-- ===== src/Lifo/Order.antt =====
-- Example 1: the tasks come out in the reverse order.
use zephyr_stm32h.Common.{
  ℕ, zero, suc, ◌+◌, ◌-◌, ◌≤◌, ◌<◌, ◌≡◌, refl, sym, ap, subst, ◌∙◌, ◌≢◌, true, ◌&&◌, some, List, [],
  ◌∷◌, ◌++◌, arith, ltb, leb, ◌==◌, if◌then◌else◌, ==_iff, length, All,
}
use zephyr_stm32h.Lifo.{LifoApi, LifoLaws, task_count, Tasks, push_tasks, pop_tasks}

-- The numbers from `first` on, `n` of them, from the last one down.
abbrev pub down_to : ℕ → ℕ → List ℕ
down_to first zero = []
down_to first (suc n) = (first + n) ∷ down_to first n

down_to_first :
    (first n : ℕ) (ps : List ℕ) → down_to (first + 1) n ++ first ∷ ps ≡ down_to first (suc n) ++ ps
down_to_first first zero ps = ap (λ (k : ℕ). k ∷ ps) (omega arith)
down_to_first first (suc n) ps =
    let e : first + 1 + n ≡ first + suc n = omega arith in
    ap (λ (k : ℕ). k ∷ (down_to (first + 1) n ++ first ∷ ps)) e
    ∙ ap (λ qs. (first + suc n) ∷ qs) (down_to_first first n ps)

-- What the tasks at these places have for numbers.
abbrev ids_of : (ℕ → ℕ) → List ℕ → List ℕ
ids_of tasks [] = []
ids_of tasks (p ∷ ps) = tasks p ∷ ids_of tasks ps

ids_of-down_to :
    (tasks : ℕ → ℕ) (first i n : ℕ)
    → ((p : ℕ) → first ≤ p → p < first + n → tasks p ≡ i + (p - first))
    → ids_of tasks (down_to first n) ≡ down_to i n
ids_of-down_to tasks first i zero h = refl
ids_of-down_to tasks first i (suc n) h =
    let top : tasks (first + n) ≡ i + n =
      omega (arith, h (first + n) (omega arith) (omega arith)) in
    ap (λ (k : ℕ). k ∷ ids_of tasks (down_to first n)) top
    ∙ ap (λ ks. (i + n) ∷ ks) (ids_of-down_to tasks first i n (λ p a b. h p a (omega (arith, b))))

apart : (p : ℕ) (ps : List ℕ) → All (λ x. x < p) ps → All (λ x. x ≢ p) ps
apart p [] h = tt
apart p (x ∷ ps) h = ((λ e. absurd (omega (arith, e, h.0))), apart p ps h.1)

wider : (p : ℕ) (ps : List ℕ) → All (λ x. x < p) ps → All (λ x. x < p + 1) ps
wider p [] h = tt
wider p (x ∷ ps) h = (omega (arith, h.0), wider p ps h.1)

module _ {Q : Type 0} {api : LifoApi Q} {contents : Q → List ℕ} (laws : LifoLaws api contents) where
  -- What `push_tasks` leaves.
  abbrev Pushed : ℕ → ℕ → Tasks Q → Tasks Q → Type 0
  Pushed n i s t =
      (contents t.task_stack ≡ down_to s.task_idx n ++ contents s.task_stack)
      × ((p : ℕ)
          → t.tasks p ≡ (
              if leb s.task_idx p && ltb p (s.task_idx + n)
              then i + (p - s.task_idx)
              else s.tasks p))

  push_tasks-Pushed :
      (n i : ℕ) (s : Tasks Q)
      → s.task_idx + n ≤ task_count
      → All (λ p. p < s.task_idx) (contents s.task_stack)
      → (t : Tasks Q) × (push_tasks api n i s ≡ some t) × Pushed n i s t
  unfolding push_tasks
  push_tasks-Pushed zero i s h below = (s, refl, (refl, λ p. ground arith))
  push_tasks-Pushed (suc n) i s h below =
      let t : Tasks Q = record {
        task_stack = api.k_lifo_put s.task_stack s.task_idx;
        tasks = λ p. if p == s.task_idx then i else s.tasks p;
        task_idx = s.task_idx + 1;
      } in
      let put =
        laws.put_adds s.task_stack s.task_idx (apart s.task_idx (contents s.task_stack) below) in
      let below' =
        subst (All (λ x. x < s.task_idx + 1)) (sym put)
          (omega arith, wider s.task_idx (contents s.task_stack) below) in
      let (u, e, (c, f)) = push_tasks-Pushed n (i + 1) t (omega arith) below' in
      let room : ltb s.task_idx task_count ≡ true = ground arith in
      (
        u,
        rw room e,
        (
          c
              ∙ ap (λ ps. down_to (s.task_idx + 1) n ++ ps) put
              ∙ down_to_first s.task_idx n (contents s.task_stack),
          λ p. ground (arith, f p, ==_iff p s.task_idx),
        ),
      )

  pop_tasks-ids_of :
      (ps rest : List ℕ) (s : Tasks Q)
      → contents s.task_stack ≡ ps ++ rest
      → (t : Tasks Q) × (pop_tasks api (length ps) s ≡ some (ids_of s.tasks ps, t))
        × (contents t.task_stack ≡ rest)
  unfolding pop_tasks
  pop_tasks-ids_of [] rest s h = (s, refl, h)
  pop_tasks-ids_of (p ∷ ps) rest s h =
      let (q, g, c) = laws.get_last s.task_stack p (ps ++ rest) h in
      let (t, e, c') = pop_tasks-ids_of ps rest (record s { task_stack = q }) c in
      (t, rw (g, e) refl, c')

  length-down_to : (first n : ℕ) → length (down_to first n) ≡ n
  length-down_to first zero = refl
  length-down_to first (suc n) = ap suc (length-down_to first n)

  -- If the array has room for `n` more tasks and the places on the stack are in front of `task_idx`, then
  -- `n` rounds of pushing, numbered from `i` on, followed by `n` rounds of popping all take place, print
  -- the numbers from the last one down to `i`, and leave the stack as it was.
  pub pop_tasks-push_tasks :
      (n i : ℕ) (s : Tasks Q)
      → s.task_idx + n ≤ task_count
      → All (λ p. p < s.task_idx) (contents s.task_stack)
      → (t : Tasks Q) × (u : Tasks Q) × (push_tasks api n i s ≡ some t)
        × (pop_tasks api n t ≡ some (down_to i n, u))
        × (contents u.task_stack ≡ contents s.task_stack)
  pop_tasks-push_tasks n i s h below =
      let (t, e, (c, f)) = push_tasks-Pushed n i s h below in
      let (u, e', c') = pop_tasks-ids_of (down_to s.task_idx n) (contents s.task_stack) t c in
      let ids = ids_of-down_to t.tasks s.task_idx i n (λ p a b. ground (arith, f p, a, b)) in
      (
        t,
        u,
        e,
        ap (λ (k : ℕ). pop_tasks api k t) (sym (length-down_to s.task_idx n))
            ∙ e'
            ∙ ap (λ ks. some (ks, u)) ids,
        c',
      )
