-- ===== src/WorkQueue/Handlers.antt =====
-- The threads and the handlers of app41_work_queue/src/main.c.
use zephyr_stm32h.Common.{
  ℕ, ◌+◌, ◌≡◌, Bool, true, false, ◌||◌, Option, some, List, [], ◌∷◌, ◌++◌, ◌==◌, if◌then◌else◌,
}
use zephyr_stm32h.WorkQueue.Main.{normal_work, delayed_work, long_work, urgent_work}

abbrev pub elem : ℕ → List ℕ → Bool
elem w [] = false
elem w (v ∷ l) = w == v || elem w l

-- A queue of work items: `k_work_submit` or `k_work_submit_to_queue`, and what its thread takes next.
pub record WorkApi (Q : Type 0) : Type 0 where
  pub submit : Q → ℕ → Q
  pub take_work : Q → Option (ℕ × Q)

-- A work item that is queued is not queued again, any other one comes last, and the thread takes the first.
pub record WorkLaws {Q : Type 0} (api : WorkApi Q) (queued : Q → List ℕ) : Type 0 where
  pub submit_new :
      (q : Q) (w : ℕ) → elem w (queued q) ≡ false → queued (api.submit q w) ≡ queued q ++ w ∷ []
  pub submit_again : (q : Q) (w : ℕ) → elem w (queued q) ≡ true → queued (api.submit q w) ≡ queued q
  pub take_first : (q q' : Q) (w : ℕ) → api.take_work q ≡ some (w, q') → queued q ≡ w ∷ queued q'

-- A call of a thread that submits work.
pub data Call : Type 0 where
  submits : ℕ → Call
  schedules : ℕ → ℕ → Call
  sleeps : ℕ → Call

abbrev pub submitter_func : List Call
submitter_func =
    submits normal_work
    ∷ sleeps 2000
    ∷ submits normal_work
    ∷ sleeps 2000
    ∷ schedules delayed_work 3000
    ∷ sleeps 5000
    ∷ []

abbrev pub dispatcher_func : List Call
dispatcher_func = submits long_work ∷ sleeps 500 ∷ submits urgent_work ∷ sleeps 5000 ∷ []

-- What a handler does to `work_count`; the other handlers print, and `long_work_handler` sleeps.
abbrev pub handler : ℕ → ℕ → ℕ
handler w work_count = if w == normal_work then work_count + 1 else work_count

pub data Worker : Type 0 where
  idle : Worker
  runs : ℕ → Worker

-- A queue, the thread that submits to it, the thread that runs its items, and the delayed items that wait
-- for their time. `submitted` are the items in the order in which they were put into the queue, `finished`
-- those that have run.
pub record Board (Q : Type 0) : Type 0 where
  pub queue : Q
  pub calls : List Call
  pub worker : Worker
  pub waiting : ℕ → Bool
  pub work_count : ℕ
  pub submitted : List ℕ
  pub finished : List ℕ

module _ {Q : Type 0} (api : WorkApi Q) (queued : Q → List ℕ) where
  -- A submission by a thread or by the expiry of a delay.
  abbrev pub submit_item : Board Q → ℕ → Board Q
  submit_item s w = record s {
    queue = api.submit s.queue w;
    submitted = if elem w (queued s.queue) then s.submitted else s.submitted ++ w ∷ [];
  }

  abbrev pub set_waiting : ℕ → Bool → (ℕ → Bool) → ℕ → Bool
  set_waiting w b waiting v = if v == w then b else waiting v

  pub data WorkStep (s : Board Q) : Board Q → Type 0 where
    submits_work :
        (w : ℕ) (rest : List Call)
        → s.calls ≡ submits w ∷ rest
        → WorkStep s (record (submit_item s w) { calls = rest })
    schedules_work :
        (w delay : ℕ) (rest : List Call)
        → s.calls ≡ schedules w delay ∷ rest
        → WorkStep s (record s { calls = rest; waiting = set_waiting w true s.waiting })
    sleeps_on :
        (time : ℕ) (rest : List Call)
        → s.calls ≡ sleeps time ∷ rest
        → WorkStep s (record s { calls = rest })
    expires :
        (w : ℕ)
        → s.waiting w ≡ true
        → WorkStep s (record (submit_item s w) { waiting = set_waiting w false s.waiting })
    takes :
        (w : ℕ) (q : Q)
        → s.worker ≡ idle
        → api.take_work s.queue ≡ some (w, q)
        → WorkStep s (record s { queue = q; worker = runs w })
    finishes :
        (w : ℕ)
        → s.worker ≡ runs w
        → WorkStep s (record s {
          worker = idle;
          work_count = handler w s.work_count;
          finished = s.finished ++ w ∷ [];
        })

  pub data WorkRun (s : Board Q) : Board Q → Type 0 where
    here : WorkRun s s
    next : {t u : Board Q} → WorkRun s t → WorkStep t u → WorkRun s u

-- Before a thread starts.
abbrev pub ready_board : {Q : Type 0} → Q → List Call → Board Q
ready_board q calls = record {
  queue = q;
  calls = calls;
  worker = idle;
  waiting = λ w. false;
  work_count = 0;
  submitted = [];
  finished = [];
}

-- The item that runs, as a list.
abbrev pub running : Worker → List ℕ
running idle = []
running (runs w) = w ∷ []
