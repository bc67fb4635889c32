-- ===== src/WorkQueue/Count.antt =====
-- `work_count` counts the runs of `normal_work`, which are as many as its submissions unless two meet.
use zephyr_stm32h.Common.{
  ℕ, ◌+◌, ◌≤◌, ◌<◌, ◌≡◌, refl, sym, ap, subst, ◌∙◌, ◌⊎◌, inl, inr, Bool, true, false, true≢false,
  List, [], ◌∷◌, ◌++◌, arith, ◌==◌, if◌then◌else◌, ==_iff, Bool-cases,
}
use zephyr_stm32h.WorkQueue.Handlers.{
  elem, WorkApi, WorkLaws, Call, submitter_func, idle, Board, WorkStep, submits_work,
  schedules_work, sleeps_on, expires, takes, finishes, WorkRun, here, next, submit_item,
  set_waiting, ready_board, running,
}
use zephyr_stm32h.WorkQueue.Main.{normal_work}
use zephyr_stm32h.WorkQueue.Order.{
  to_submit, to_schedule, InOrder, submit_item-InOrder, WorkStep-InOrder,
}

-- How often a number stands in a list.
abbrev pub count : ℕ → List ℕ → ℕ
count w [] = 0
count w (v ∷ l) = (if w == v then 1 else 0) + count w l

count-append : (w : ℕ) (xs ys : List ℕ) → count w (xs ++ ys) ≡ count w xs + count w ys
count-append w [] ys = omega arith
count-append w (x ∷ xs) ys = omega (arith, count-append w xs ys)

elem-count : (w : ℕ) (xs : List ℕ) → elem w xs ≡ true → 1 ≤ count w xs
elem-count w [] h = absurd (true≢false (sym h))
elem-count w (x ∷ xs) h = ground (arith, h, elem-count w xs)

module _ {Q : Type 0} {api : WorkApi Q} {queued : Q → List ℕ} (laws : WorkLaws api queued) where
  -- What a submission adds to the items of the queue.
  submitted_count :
      (s : Board Q) (w : ℕ)
      → InOrder {api = api} laws s
      → ((v : ℕ)
          → count v (submit_item api queued s w).submitted ≡ count v s.submitted + count v (w ∷ []))
        ⊎ (((submit_item api queued s w).submitted ≡ s.submitted) × (1 ≤ count w s.submitted))
  submitted_count s w h = elim (Bool-cases (elem w (queued s.queue))) [
    | inl old ↦
        let more = elem-count w (queued s.queue) old in
        let all : count w s.submitted
            ≡ count w s.finished + (count w (running s.worker) + count w (queued s.queue)) =
          ap (count w) h
          ∙ omega (
            arith,
            count-append w s.finished (running s.worker ++ queued s.queue),
            count-append w (running s.worker) (queued s.queue),
          ) in
        inr (rw old refl, omega (arith, more, all))
    | inr new ↦ inl (λ v. rw new (count-append v s.submitted (w ∷ [])))
  ]

  -- `normal_work` is submitted twice, never by the expiry of a delay.
  record CountOk (s : Board Q) : Type 0 where
    in_order : InOrder {api = api} laws s
    counted : s.work_count ≡ count normal_work s.finished
    at_most : count normal_work s.submitted + count normal_work (to_submit s.calls) ≤ 2
    at_least : count normal_work (to_submit s.calls) < 2 → 1 ≤ count normal_work s.submitted
    none_waits : s.waiting normal_work ≡ false
    none_scheduled : elem normal_work (to_schedule s.calls) ≡ false

  -- The bounds after a submission, with these calls left.
  submit_bounds :
      (s : Board Q) (w : ℕ) (before after : List Call)
      → InOrder {api = api} laws s
      → count normal_work (to_submit before)
        ≡ count normal_work (w ∷ []) + count normal_work (to_submit after)
      → count normal_work s.submitted + count normal_work (to_submit before) ≤ 2
      → (count normal_work (to_submit before) < 2 → 1 ≤ count normal_work s.submitted)
      → let s' = submit_item api queued s w in
        (count normal_work s'.submitted + count normal_work (to_submit after) ≤ 2)
        × (count normal_work (to_submit after) < 2 → 1 ≤ count normal_work s'.submitted)
  submit_bounds s w before after h todo most least = elim (submitted_count s w h) [
    | inl new ↦
        let n = new normal_work in
        elim (Bool-cases (normal_work == w)) [
          | inl e ↦ (ground (arith, n, todo, most), λ l. ground (arith, n, e))
          | inr e ↦ (ground (arith, n, todo, most, e), λ l. ground (arith, n, todo, e, l, least))
        ]
    | inr (old, there) ↦
        let n : count normal_work (submit_item api queued s w).submitted
            ≡ count normal_work s.submitted =
          ap (count normal_work) old in
        elim (Bool-cases (normal_work == w)) [
          | inl e ↦
              let same : 1 ≤ count normal_work s.submitted =
                subst (λ v. 1 ≤ count v s.submitted) (sym ((==_iff normal_work w).0 e)) there in
              (ground (arith, n, todo, most), λ l. omega (arith, n, same))
          | inr e ↦ (ground (arith, n, todo, most, e), λ l. ground (arith, n, todo, e, l, least))
        ]
  ]

  -- A thread that goes on without a submission.
  goes_on :
      (s : Board Q) (rest : List Call) (waiting : ℕ → Bool)
      → to_submit s.calls ≡ to_submit rest
      → waiting normal_work ≡ false
      → elem normal_work (to_schedule rest) ≡ false
      → CountOk s
      → CountOk (record s { calls = rest; waiting = waiting })
  goes_on s rest waiting e w n ok = record {
    in_order = ok.in_order;
    counted = ok.counted;
    at_most = rw (← e) ok.at_most;
    at_least = rw (← e) ok.at_least;
    none_waits = w;
    none_scheduled = n;
  }

  WorkStep-CountOk : {s t : Board Q} → WorkStep api queued s t → CountOk s → CountOk t
  WorkStep-CountOk {s} (submits_work w rest e) ok =
      let todo : count normal_work (to_submit s.calls)
          ≡ count normal_work (w ∷ []) + count normal_work (to_submit rest) =
        ap (λ c. count normal_work (to_submit c)) e ∙ omega arith in
      let (most, least) = submit_bounds s w s.calls rest ok.in_order todo ok.at_most ok.at_least in
      record {
        in_order = submit_item-InOrder laws s w ok.in_order;
        counted = ok.counted;
        at_most = most;
        at_least = least;
        none_waits = ok.none_waits;
        none_scheduled = ap (λ c. elem normal_work (to_schedule c)) (sym e) ∙ ok.none_scheduled;
      }
  WorkStep-CountOk {s} (schedules_work w n rest e) ok =
      let h : elem normal_work (w ∷ to_schedule rest) ≡ false =
        ap (λ c. elem normal_work (to_schedule c)) (sym e) ∙ ok.none_scheduled in
      goes_on s rest (set_waiting api queued w true s.waiting) (ap to_submit e)
        (ground (arith, h, ok.none_waits)) (ground (arith, h)) ok
  WorkStep-CountOk {s} (sleeps_on n rest e) ok =
      goes_on s rest s.waiting (ap to_submit e) ok.none_waits
        (ap (λ c. elem normal_work (to_schedule c)) (sym e) ∙ ok.none_scheduled) ok
  WorkStep-CountOk {s} (expires w e) ok =
      let other : (normal_work == w) ≡ false = elim (Bool-cases (normal_work == w)) [
        | inl same ↦ absurd (
            true≢false (sym e ∙ ap s.waiting (sym ((==_iff normal_work w).0 same)) ∙ ok.none_waits))
        | inr new ↦ new
      ] in
      let todo : count normal_work (to_submit s.calls)
          ≡ count normal_work (w ∷ []) + count normal_work (to_submit s.calls) =
        ground (arith, other) in
      let (most, least) =
        submit_bounds s w s.calls s.calls ok.in_order todo ok.at_most ok.at_least in
      record {
        in_order = submit_item-InOrder laws s w ok.in_order;
        counted = ok.counted;
        at_most = most;
        at_least = least;
        none_waits = ground (arith, other, ok.none_waits);
        none_scheduled = ok.none_scheduled;
      }
  WorkStep-CountOk {s} (takes w q e n) ok = record {
    in_order = WorkStep-InOrder laws {s = s} (takes w q e n) ok.in_order;
    counted = ok.counted;
    at_most = ok.at_most;
    at_least = ok.at_least;
    none_waits = ok.none_waits;
    none_scheduled = ok.none_scheduled;
  }
  WorkStep-CountOk {s} (finishes w e) ok = record {
    in_order = WorkStep-InOrder laws {s = s} (finishes w e) ok.in_order;
    counted = ground (
      arith,
      ok.counted,
      count-append normal_work s.finished (w ∷ []),
      ==_iff w normal_work,
      ==_iff normal_work w,
    );
    at_most = ok.at_most;
    at_least = ok.at_least;
    none_waits = ok.none_waits;
    none_scheduled = ok.none_scheduled;
  }

  WorkRun-CountOk : {s t : Board Q} → CountOk s → WorkRun api queued s t → CountOk t
  WorkRun-CountOk ok here = ok
  WorkRun-CountOk ok (next r st) = WorkStep-CountOk st (WorkRun-CountOk ok r)

  -- From an empty system queue, whatever the interleaving of the submitter, the expiry of the delay and the
  -- thread of the queue, when the submitter has made its calls and nothing runs or is queued: `work_count`
  -- is the number of times that `normal_work` has run, which is 1 or 2.
  pub work_count_at_rest :
      (q : Q) (t : Board Q)
      → queued q ≡ []
      → WorkRun api queued (ready_board q submitter_func) t
      → t.calls ≡ []
      → t.worker ≡ idle
      → queued t.queue ≡ []
      → (t.work_count ≡ count normal_work t.finished) × (1 ≤ t.work_count) × (t.work_count ≤ 2)
  work_count_at_rest q t e r c i n =
      let start : CountOk (ready_board q submitter_func) = record {
        in_order = sym e;
        counted = refl;
        at_most = omega arith;
        at_least = λ l. absurd (omega (arith, l));
        none_waits = refl;
        none_scheduled = refl;
      } in
      let ok = WorkRun-CountOk start r in
      let all : count normal_work t.submitted
          ≡ count normal_work t.finished + count normal_work (running t.worker ++ queued t.queue) =
        ap (count normal_work) ok.in_order ∙ count-append normal_work t.finished _ in
      let left : count normal_work (to_submit t.calls) ≡ 0 =
        ap (λ l. count normal_work (to_submit l)) c in
      let rest : count normal_work (running t.worker ++ queued t.queue) ≡ 0 = rw (i, n) refl in
      (
        ok.counted,
        omega (arith, ok.at_least (omega (arith, left)), ok.counted, all, rest),
        omega (arith, ok.at_most, ok.counted, all),
      )
