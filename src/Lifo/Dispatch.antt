-- ===== src/Lifo/Dispatch.antt =====
-- Example 2: the order of the commands, and the end of their pool.
use zephyr_stm32h.Common.{
  ℕ, zero, suc, ◌+◌, ◌*◌, ◌≤◌, ◌<◌, ◌≡◌, refl, sym, subst, ◌∙◌, ◌≢◌, ◌↔◌, ◌⊎◌, inl, inr, Bool, true,
  false, true≢false, Option, none, some, List, [], ◌∷◌, arith, ltb, ◌==◌, if◌then◌else◌, ==_refl,
  Bool-cases, All,
}
use zephyr_stm32h.Lifo.{
  LifoApi, LifoLaws, cmd_normal, cmd_urgent, Command, cmd_count, Commands, dispatch_round,
  dispatcher_func, label_urgent, label_normal, executor_round,
}

apart : (p : ℕ) (ps : List ℕ) → All (λ x. x < p) ps → All (λ x. x ≢ p) ps
apart p [] h = tt
apart p (x ∷ ps) h = ((λ e. absurd (omega (arith, e, h.0))), apart p ps h.1)

apart_next : (p : ℕ) (ps : List ℕ) → All (λ x. x < p) ps → All (λ x. x ≢ p + 1) ps
apart_next p [] h = tt
apart_next p (x ∷ ps) h = ((λ e. absurd (omega (arith, e, h.0))), apart_next p ps h.1)

-- The pool and the stack with a command more.
abbrev added : {Q : Type 0} → LifoApi Q → Command → Commands Q → Commands Q
added api c s = record s {
  cmd_stack = api.k_lifo_put s.cmd_stack s.cmd_idx;
  cmd_pool = λ p. if p == s.cmd_idx then c else s.cmd_pool p;
  cmd_idx = s.cmd_idx + 1;
}

abbrev both_added : {Q : Type 0} → LifoApi Q → (ℕ → List ℕ) → (ℕ → List ℕ) → Commands Q → Commands Q
both_added api normal urgent s =
    added api (record { type = cmd_urgent; name = urgent (s.seq + 1) })
      (record (added api (record { type = cmd_normal; name = normal s.seq }) s) { seq = s.seq + 1 })

-- Whether a round has a result.
abbrev pub goes_on : {A : Type 0} → Option A → Bool
goes_on none = false
goes_on (some a) = true

module _ {Q : Type 0} (api : LifoApi Q) (normal urgent : ℕ → List ℕ) where
  round_cases :
      (s : Commands Q)
      → ((s.cmd_idx + 1 < cmd_count)
          × ((t : Commands Q) × (dispatch_round api normal urgent s ≡ some t)
              × (t.cmd_idx ≡ s.cmd_idx + 2)))
        ⊎ ((cmd_count ≤ s.cmd_idx + 1) × (dispatch_round api normal urgent s ≡ none))
  round_cases s = elim (Bool-cases (ltb (s.cmd_idx + 1) cmd_count)) [
    | inl a ↦
        let b : ltb s.cmd_idx cmd_count ≡ true = ground (arith, a) in
        inl (ground (arith, a), (both_added api normal urgent s, rw (b, a) refl, omega arith))
    | inr a ↦ inr (
      ground (arith, a),
      elim (Bool-cases (ltb s.cmd_idx cmd_count)) [ inl b ↦ rw (b, a) refl | inr b ↦ rw b refl ],
    )
  ]

  -- The dispatcher can make `n` more rounds if and only if the pool has two places for each: from the
  -- start it stays in the pool for three rounds, and the fourth one writes beyond it.
  pub dispatcher_func_iff :
      (n : ℕ) (s : Commands Q)
      → s.cmd_idx ≤ cmd_count
      → (goes_on (dispatcher_func api normal urgent n s) ≡ true) ↔ (s.cmd_idx + 2 * n ≤ cmd_count)
  unfolding dispatcher_func
  dispatcher_func_iff zero s h = (λ e. omega arith, λ e. refl)
  dispatcher_func_iff (suc n) s h = elim (round_cases s) [
    | inl (room, (t, e, i)) ↦
        let (there, back) = dispatcher_func_iff n t (omega (arith, room, i)) in
        (λ g. omega (arith, there (rw e at g), i), λ g. rw e (back (omega (arith, g, i))))
    | inr (full, e) ↦
        (λ g. absurd (true≢false (sym (rw e at g))), λ g. absurd (omega (arith, full, g)))
  ]

  -- If the pool has two places left, and no command from here on is on the stack, then after a round of
  -- the dispatcher with no round of the executor meanwhile, the executor's next two rounds print the
  -- urgent command and then the normal one, and leave the stack as it was.
  pub urgent_first :
      {contents : Q → List ℕ}
      → LifoLaws api contents
      → (s : Commands Q) → s.cmd_idx + 2 ≤ cmd_count
      → All (λ p. p < s.cmd_idx) (contents s.cmd_stack)
      → (t : Commands Q) × (u : Commands Q) × (v : Commands Q) × (dispatch_round api normal urgent s
          ≡ some t)
        × (executor_round api t ≡ some ((label_urgent, urgent (s.seq + 1)), u))
        × (executor_round api u ≡ some ((label_normal, normal s.seq), v))
        × (contents v.cmd_stack ≡ contents s.cmd_stack)
  urgent_first {contents} laws s h below =
      let t = both_added api normal urgent s in
      let first : ltb s.cmd_idx cmd_count ≡ true = ground arith in
      let second : ltb (s.cmd_idx + 1) cmd_count ≡ true = ground arith in
      let differ : (s.cmd_idx == s.cmd_idx + 1) ≡ false = ground arith in
      let q1 = api.k_lifo_put s.cmd_stack s.cmd_idx in
      let put1 =
        laws.put_adds s.cmd_stack s.cmd_idx (apart s.cmd_idx (contents s.cmd_stack) below) in
      let apart1 =
        subst (All (λ x. x ≢ s.cmd_idx + 1)) (sym put1)
          ((λ e. absurd (omega (arith, e))), apart_next s.cmd_idx (contents s.cmd_stack) below) in
      let put2 = laws.put_adds q1 (s.cmd_idx + 1) apart1 in
      let (q3, g3, c3) =
        laws.get_last (api.k_lifo_put q1 (s.cmd_idx + 1)) (s.cmd_idx + 1) (contents q1) put2 in
      let (q4, g4, c4) = laws.get_last q3 s.cmd_idx (contents s.cmd_stack) (c3 ∙ put1) in
      (
        t,
        record t { cmd_stack = q3 },
        record t { cmd_stack = q4 },
        rw (first, second) refl,
        rw (g3, ==_refl (s.cmd_idx + 1)) refl,
        rw (g4, differ, ==_refl s.cmd_idx) refl,
        c4,
      )
