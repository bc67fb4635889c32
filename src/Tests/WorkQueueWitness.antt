-- ===== src/Tests/WorkQueueWitness.antt =====
-- The theorems on the work items at concrete runs, with a queue in memory.
use zephyr_stm32h.Common.{
  ℕ, ◌≤◌, ◌≡◌, refl, true, false, Option, none, some, List, [], ◌∷◌, ◌++◌, if◌then◌else◌, drop,
}
use zephyr_stm32h.WorkQueue.Count.{count, work_count_at_rest}
use zephyr_stm32h.WorkQueue.Handlers.{
  elem, WorkApi, WorkLaws, dispatcher_func, submitter_func, runs, Board, submits_work, sleeps_on,
  takes, finishes, WorkRun, here, next, ready_board, running, schedules_work, set_waiting,
}
use zephyr_stm32h.WorkQueue.Main.{normal_work, delayed_work, long_work, urgent_work}
use zephyr_stm32h.WorkQueue.Order.{to_submit, urgent_after_long}

abbrev first_work : List ℕ → Option (ℕ × List ℕ)
first_work [] = none
first_work (w ∷ l) = some (w, l)

abbrev toy_work : WorkApi (List ℕ)
toy_work = record { submit = λ q w. if elem w q then q else q ++ w ∷ []; take_work = first_work }

abbrev contents : List ℕ → List ℕ
contents q = q

first_work_lem : (q q' : List ℕ) (w : ℕ) → first_work q ≡ some (w, q') → q ≡ w ∷ q'
first_work_lem [] q' w h = absurd cc
first_work_lem (v ∷ l) q' w h = cc

toy_work_laws : WorkLaws toy_work contents
toy_work_laws = record {
  submit_new = λ q w h. rw h refl;
  submit_again = λ q w h. rw h refl;
  take_first = first_work_lem;
}

-- The long item runs and the urgent one waits.
abbrev long_runs : Board (List ℕ)
long_runs = record (ready_board [] dispatcher_func) {
  queue = urgent_work ∷ [];
  calls = drop 3 dispatcher_func;
  worker = runs long_work;
  submitted = long_work ∷ urgent_work ∷ [];
}

long_run : WorkRun toy_work contents (ready_board [] dispatcher_func) long_runs
long_run =
    next
      (next (next (next here (submits_work _ _ refl)) (takes _ _ refl refl)) (sleeps_on _ _ refl))
      (submits_work _ _ refl)

urgent_after_long_example :
    long_runs.finished
      ++ (running long_runs.worker ++ (long_runs.queue ++ to_submit long_runs.calls))
    ≡ long_work ∷ urgent_work ∷ []
urgent_after_long_example = urgent_after_long toy_work_laws [] long_runs refl long_run

-- Both submissions have run, and the delay has not expired.
abbrev at_rest : Board (List ℕ)
at_rest = record (ready_board [] submitter_func) {
  calls = [];
  waiting = set_waiting toy_work contents delayed_work true (λ w. false);
  work_count = 2;
  submitted = normal_work ∷ normal_work ∷ [];
  finished = normal_work ∷ normal_work ∷ [];
}

rest_run : WorkRun toy_work contents (ready_board [] submitter_func) at_rest
rest_run =
    let once =
      next (next (next here (submits_work _ _ refl)) (takes _ _ refl refl)) (finishes _ refl) in
    let twice =
      next
        (next (next (next once (sleeps_on _ _ refl)) (submits_work _ _ refl)) (takes _ _ refl refl))
        (finishes _ refl) in
    next (next (next twice (sleeps_on _ _ refl)) (schedules_work _ _ _ refl)) (sleeps_on _ _ refl)

work_count_at_rest_example :
    (at_rest.work_count ≡ count normal_work at_rest.finished)
    × (1 ≤ at_rest.work_count)
    × (at_rest.work_count ≤ 2)
work_count_at_rest_example =
    work_count_at_rest toy_work_laws [] at_rest refl rest_run refl refl refl
