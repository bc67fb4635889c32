-- ===== src/Startup.antt =====
-- What the `main` functions of app30_task to app41_work_queue do: they initialise kernel objects,
-- create threads and sleep, while the threads that they have created run.
pub mod Applications
pub mod Order
use mathlib.Core.List.{Memᴰ}
use zephyr_stm32h.Common.{
  ℕ, zero, suc, ◌+◌, ◌-◌, ◌*◌, ◌/◌, ◌%◌, ◌^◌, ◌≤◌, ◌<◌, ◌≡◌, refl, sym, ap, subst, ◌∙◌, ◌≢◌, ◌↔◌,
  ◌⊎◌, inl, inr, Bool, true, false, true≢false, not, ◌&&◌, ◌||◌, Option, none, some, List, [], ◌∷◌,
  ◌++◌, append-nil, append_assoc, arith, ltb, leb, ◌==◌, if◌then◌else◌, lt→ltb, le→ltb, le→leb,
  lt→leb, ==_iff, ==_refl, Bool-cases, if_rule, length, get_or, set, take, drop, replicate, All,
  length-append, length-take, length-drop, length-replicate, length-set, take-append-drop,
  take-append_left, take-append_right, drop-append_right, take_all, get_or-append_left,
  get_or-append_right, get_or-take, get_or-drop, u8, u16, u32, is_negative, is_err, le16, le32,
  bytes16, bytes32,
}

-- A thread: its number, its priority and the kernel objects that its function uses.
pub record Thread : Type 0 where
  pub id : ℕ
  pub priority : ℕ
  pub uses : List ℕ

-- A call of `main`: a `k_..._init`, `k_thread_create` and `k_msleep`. An object or a thread that is defined
-- statically is one that is initialised or created before.
pub data Action : Type 0 where
  initialises : ℕ → Action
  creates : Thread → Action
  sleeps : ℕ → Action

pub data Event : Type 0 where
  initialised : ℕ → Event
  created : ℕ → Event
  used : ℕ → ℕ → Event

-- The events are logged with the last one first.
pub record Kernel : Type 0 where
  pub left : List Action
  pub running : List Thread
  pub log : List Event

-- What a call logs and which thread it starts.
abbrev pub logged : Action → List Event → List Event
logged (initialises o) log = initialised o ∷ log
logged (creates t) log = created t.id ∷ log
logged (sleeps n) log = log

abbrev pub started : Action → List Thread → List Thread
started (creates t) ts = t ∷ ts
started _ ts = ts

-- At any moment `main` makes its next call or a thread that runs uses one of its objects.
pub data KernelStep (s : Kernel) : Kernel → Type 0 where
  main_calls :
      (a : Action) (rest : List Action)
      → s.left ≡ a ∷ rest
      → KernelStep s (record { left = rest; running = started a s.running; log = logged a s.log })
  thread_uses :
      (t : Thread) (o : ℕ)
      → Memᴰ t s.running
      → Memᴰ o t.uses
      → KernelStep s (record s { log = used t.id o ∷ s.log })

pub data KernelRun (s : Kernel) : Kernel → Type 0 where
  here : KernelRun s s
  next : {t u : Kernel} → KernelRun s t → KernelStep t u → KernelRun s u

abbrev pub boot : List Action → Kernel
boot calls = record { left = calls; running = []; log = [] }

-- What a log tells.
abbrev pub was_initialised : ℕ → List Event → Bool
was_initialised o [] = false
was_initialised o (initialised p ∷ l) = o == p || was_initialised o l
was_initialised o (created i ∷ l) = was_initialised o l
was_initialised o (used i p ∷ l) = was_initialised o l

abbrev pub was_created : ℕ → List Event → Bool
was_created i [] = false
was_created i (initialised p ∷ l) = was_created i l
was_created i (created j ∷ l) = i == j || was_created i l
was_created i (used j p ∷ l) = was_created i l

abbrev pub was_used : ℕ → List Event → Bool
was_used o [] = false
was_used o (initialised p ∷ l) = was_used o l
was_used o (created i ∷ l) = was_used o l
was_used o (used i p ∷ l) = o == p || was_used o l

-- No thread uses an object that is not initialised, no object is initialised twice or after a use, and no
-- thread is created twice.
abbrev pub Proper : List Event → Type 0
Proper [] = Unit
Proper (initialised o ∷ l) = (was_initialised o l ≡ false) × (was_used o l ≡ false) × Proper l
Proper (created i ∷ l) = (was_created i l ≡ false) × Proper l
Proper (used i o ∷ l) = (was_initialised o l ≡ true) × (was_created i l ≡ true) × Proper l
