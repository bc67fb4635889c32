-- ===== src/WorkQueue/Order.antt =====
-- Work items run one at a time in the order of their submission.
use zephyr_stm32h.Common.{
  ℕ, suc, ◌≡◌, refl, sym, ap, ◌∙◌, inl, inr, Bool, true, false, true≢false, not, ◌&&◌, ◌||◌, List,
  [], ◌∷◌, ◌++◌, append_assoc, arith, ◌==◌, ==_iff, Bool-cases, length,
}
use zephyr_stm32h.WorkQueue.Handlers.{
  elem, WorkApi, WorkLaws, Call, submits, schedules, sleeps, dispatcher_func, Board, WorkStep,
  submits_work, schedules_work, sleeps_on, expires, takes, finishes, WorkRun, here, next,
  submit_item, ready_board, running,
}
use zephyr_stm32h.WorkQueue.Main.{long_work, urgent_work}

-- The items that a thread still submits.
abbrev pub to_submit : List Call → List ℕ
to_submit [] = []
to_submit (submits w ∷ rest) = w ∷ to_submit rest
to_submit (schedules w n ∷ rest) = to_submit rest
to_submit (sleeps n ∷ rest) = to_submit rest

-- The items that it still schedules.
abbrev pub to_schedule : List Call → List ℕ
to_schedule [] = []
to_schedule (submits w ∷ rest) = to_schedule rest
to_schedule (schedules w n ∷ rest) = w ∷ to_schedule rest
to_schedule (sleeps n ∷ rest) = to_schedule rest

pub elem-append : (w : ℕ) (xs ys : List ℕ) → elem w (xs ++ ys) ≡ (elem w xs || elem w ys)
elem-append w [] ys = refl
elem-append w (x ∷ xs) ys = elim (Bool-cases (w == x)) [
  | inl e ↦ rw e refl
  | inr e ↦ rw e (elem-append w xs ys)
]

-- No number stands twice in the list.
abbrev distinct : List ℕ → Bool
distinct [] = true
distinct (x ∷ xs) = not (elem x xs) && distinct xs

distinct-middle : (w : ℕ) (xs ys : List ℕ) → distinct (xs ++ w ∷ ys) ≡ true → elem w xs ≡ false
distinct-middle w [] ys h = refl
distinct-middle w (x ∷ xs) ys h =
    ground (arith, h, distinct-middle w xs ys, elem-append x xs (w ∷ ys), ==_iff w x, ==_iff x w)

module _ {Q : Type 0} {api : WorkApi Q} {queued : Q → List ℕ} (laws : WorkLaws api queued) where
  -- What was put into the queue has run, runs, or waits in the queue, in this order.
  abbrev pub InOrder : Board Q → Type 0
  InOrder s = s.submitted ≡ s.finished ++ (running s.worker ++ queued s.queue)

  pub submit_item-InOrder : (s : Board Q) (w : ℕ) → InOrder s → InOrder (submit_item api queued s w)
  submit_item-InOrder s w h = elim (Bool-cases (elem w (queued s.queue))) [
    | inl old ↦ rw (old, laws.submit_again s.queue w old) h
    | inr new ↦
        rw (new, laws.submit_new s.queue w new)
          (ap (λ l. l ++ w ∷ []) h
            ∙ append_assoc s.finished (running s.worker ++ queued s.queue) (w ∷ [])
            ∙ ap (λ l. s.finished ++ l) (append_assoc (running s.worker) (queued s.queue) (w ∷ [])))
  ]

  pub WorkStep-InOrder : {s t : Board Q} → WorkStep api queued s t → InOrder s → InOrder t
  WorkStep-InOrder {s} (submits_work w rest e) h = submit_item-InOrder s w h
  WorkStep-InOrder (schedules_work w n rest e) h = h
  WorkStep-InOrder (sleeps_on n rest e) h = h
  WorkStep-InOrder {s} (expires w e) h = submit_item-InOrder s w h
  WorkStep-InOrder {s} (takes w q e t) h =
      h
      ∙ ap (λ p. s.finished ++ (running p ++ queued s.queue)) e
      ∙ ap (λ l. s.finished ++ l) (laws.take_first s.queue q w t)
  WorkStep-InOrder {s} (finishes w e) h =
      h
      ∙ ap (λ p. s.finished ++ (running p ++ queued s.queue)) e
      ∙ sym (append_assoc s.finished (w ∷ []) (queued s.queue))

  -- What is queued was submitted.
  pub queued_submitted :
      (s : Board Q) (w : ℕ)
      → InOrder s
      → elem w s.submitted ≡ false
      → elem w (queued s.queue) ≡ false
  queued_submitted s w h f = ground (
    arith,
    sym (ap (elem w) h) ∙ f,
    elem-append w s.finished (running s.worker ++ queued s.queue),
    elem-append w (running s.worker) (queued s.queue),
  )

  -- A thread that schedules nothing and submits the distinct items of a plan.
  record PlanOk (plan : List ℕ) (s : Board Q) : Type 0 where
    in_order : InOrder s
    none_wait : (w : ℕ) → s.waiting w ≡ false
    none_scheduled : to_schedule s.calls ≡ []
    todo : s.submitted ++ to_submit s.calls ≡ plan

  WorkStep-PlanOk :
      (plan : List ℕ) {s t : Board Q}
      → distinct plan ≡ true
      → WorkStep api queued s t
      → PlanOk plan s
      → PlanOk plan t
  WorkStep-PlanOk plan {s} d (submits_work w rest e) ok =
      let todo : s.submitted ++ w ∷ to_submit rest ≡ plan =
        ap (λ c. s.submitted ++ to_submit c) (sym e) ∙ ok.todo in
      let new =
        queued_submitted s w ok.in_order
          (distinct-middle w s.submitted (to_submit rest) (ap distinct todo ∙ d)) in
      record {
        in_order = submit_item-InOrder s w ok.in_order;
        none_wait = ok.none_wait;
        none_scheduled = ap to_schedule (sym e) ∙ ok.none_scheduled;
        todo = rw new (append_assoc s.submitted (w ∷ []) (to_submit rest) ∙ todo);
      }
  WorkStep-PlanOk plan d (schedules_work w n rest e) ok =
      let none : suc (length (to_schedule rest)) ≡ 0 =
        ap length (ap to_schedule (sym e) ∙ ok.none_scheduled) in
      absurd (omega (arith, none))
  WorkStep-PlanOk plan {s} d (sleeps_on n rest e) ok = record {
    in_order = ok.in_order;
    none_wait = ok.none_wait;
    none_scheduled = ap to_schedule (sym e) ∙ ok.none_scheduled;
    todo = ap (λ c. s.submitted ++ to_submit c) (sym e) ∙ ok.todo;
  }
  WorkStep-PlanOk plan d (expires w e) ok = absurd (true≢false (sym e ∙ ok.none_wait w))
  WorkStep-PlanOk plan d st ok = record {
    in_order = WorkStep-InOrder st ok.in_order;
    none_wait = ok.none_wait;
    none_scheduled = ok.none_scheduled;
    todo = ok.todo;
  }

  WorkRun-PlanOk :
      (plan : List ℕ) {s t : Board Q}
      → distinct plan ≡ true
      → PlanOk plan s
      → WorkRun api queued s t
      → PlanOk plan t
  WorkRun-PlanOk plan d ok here = ok
  WorkRun-PlanOk plan d ok (next r st) = WorkStep-PlanOk plan d st (WorkRun-PlanOk plan d ok r)

  -- From an empty queue, whatever the interleaving of the dispatcher with the thread of its queue: the items
  -- that have run, the one that runs, those in the queue and those still to be submitted are `long_work` and
  -- then `urgent_work`. So each runs once at most, and the urgent one never before the long one has finished.
  pub urgent_after_long :
      (q : Q) (t : Board Q)
      → queued q ≡ []
      → WorkRun api queued (ready_board q dispatcher_func) t
      → t.finished ++ (running t.worker ++ (queued t.queue ++ to_submit t.calls))
        ≡ long_work ∷ urgent_work ∷ []
  urgent_after_long q t e r =
      let ok =
        WorkRun-PlanOk (long_work ∷ urgent_work ∷ []) refl
          (record { in_order = sym e; none_wait = λ w. refl; none_scheduled = refl; todo = refl })
          r in
      ap (λ l. t.finished ++ l)
        (sym (append_assoc (running t.worker) (queued t.queue) (to_submit t.calls)))
      ∙ sym (append_assoc t.finished (running t.worker ++ queued t.queue) (to_submit t.calls))
      ∙ ap (λ l. l ++ to_submit t.calls) (sym ok.in_order)
      ∙ ok.todo
