-- ===== src/Startup/Order.antt =====
-- Calls in a proper order: each object is ready before the threads that use it.
use mathlib.Core.List.{Memᴰ}
use mathlib.Core.List.Memᴰ
use zephyr_stm32h.Common.{
  ℕ, ◌≡◌, refl, sym, ap, subst, ◌∙◌, inl, inr, Bool, true, false, true≢false, not, ◌&&◌, List, [],
  ◌∷◌, arith, ◌==◌, ==_iff, ==_refl, Bool-cases,
}
use zephyr_stm32h.Startup.{
  Thread, Action, initialises, creates, sleeps, Event, initialised, created, used, Kernel, logged,
  started, KernelStep, main_calls, thread_uses, KernelRun, here, next, boot, was_initialised,
  was_created, was_used, Proper,
}

abbrev all_initialised : List ℕ → List Event → Bool
all_initialised [] log = true
all_initialised (o ∷ os) log = was_initialised o log && all_initialised os log

-- The calls, after those that the log tells.
abbrev pub in_order : List Event → List Action → Bool
in_order log [] = true
in_order log (initialises o ∷ rest) =
    not (was_initialised o log) && in_order (initialised o ∷ log) rest
in_order log (creates t ∷ rest) =
    not (was_created t.id log) && (all_initialised t.uses log && in_order (created t.id ∷ log) rest)
in_order log (sleeps n ∷ rest) = in_order log rest

both : (a b : Bool) → (a && b) ≡ true → (a ≡ true) × (b ≡ true)
both true b h = (refl, h)
both false b h = absurd (true≢false (sym h))

not_lem : (a : Bool) → not a ≡ true → a ≡ false
not_lem true h = absurd (true≢false (sym h))
not_lem false h = refl

-- All objects of a list are initialised.
-- All objects of a list are initialised.
abbrev pub Ready : List ℕ → List Event → Type 0
Ready os log = (o : ℕ) → Memᴰ o os → was_initialised o log ≡ true

all_initialised-Ready :
    (os : List ℕ) (log : List Event) → all_initialised os log ≡ true → Ready os log
all_initialised-Ready [] log h o m = absurd (Memᴰ.not-nil m)
all_initialised-Ready (p ∷ os) log h o (Memᴰ.head e) =
    rw e (both (was_initialised p log) (all_initialised os log) h).0
all_initialised-Ready (p ∷ os) log h o (Memᴰ.tail m) =
    all_initialised-Ready os log (both (was_initialised p log) (all_initialised os log) h).1 o m

-- What has been logged stays so.
initialised_still :
    (o : ℕ) (e : Event) (log : List Event)
    → was_initialised o log ≡ true
    → was_initialised o (e ∷ log) ≡ true
initialised_still o (initialised p) log h = ground (arith, h)
initialised_still o (created i) log h = h
initialised_still o (used i p) log h = h

created_still :
    (i : ℕ) (e : Event) (log : List Event)
    → was_created i log ≡ true
    → was_created i (e ∷ log) ≡ true
created_still i (initialised p) log h = h
created_still i (created j) log h = ground (arith, h)
created_still i (used j p) log h = h

-- The calls to come are in order, the threads that run have their objects, and the log is proper.
record KernelOk (s : Kernel) : Type 0 where
  to_come : in_order s.log s.left ≡ true
  threads : (t : Thread) → Memᴰ t s.running → (was_created t.id s.log ≡ true) × Ready t.uses s.log
  unused : (o : ℕ) → was_initialised o s.log ≡ false → was_used o s.log ≡ false
  proper : Proper s.log

-- The threads that run keep their objects.
threads_still :
    (s : Kernel) (e : Event) (t : Thread)
    → (was_created t.id s.log ≡ true) × Ready t.uses s.log
    → (was_created t.id (e ∷ s.log) ≡ true) × Ready t.uses (e ∷ s.log)
threads_still s e t (c, r) =
    (created_still t.id e s.log c, λ o m. initialised_still o e s.log (r o m))

main_calls-KernelOk :
    (a : Action) (rest : List Action) (s : Kernel)
    → KernelOk (record s { left = a ∷ rest })
    → KernelOk (record { left = rest; running = started a s.running; log = logged a s.log })
main_calls-KernelOk (initialises o) rest s ok =
    let (fresh, later) =
      both (not (was_initialised o s.log)) (in_order (initialised o ∷ s.log) rest) ok.to_come in
    let none_yet = not_lem (was_initialised o s.log) fresh in
    record {
      to_come = later;
      threads = λ t m. threads_still s (initialised o) t (ok.threads t m);
      unused = λ p h. ground (arith, ok.unused p, h);
      proper = (none_yet, ok.unused o none_yet, ok.proper);
    }
main_calls-KernelOk (creates t) rest s ok =
    let (fresh, more) =
      both (not (was_created t.id s.log))
        (all_initialised t.uses s.log && in_order (created t.id ∷ s.log) rest) ok.to_come in
    let (objects, later) =
      both (all_initialised t.uses s.log) (in_order (created t.id ∷ s.log) rest) more in
    record {
      to_come = later;
      threads = λ u m. elim (Memᴰ.cases_cons m) [
        | inl e ↦
            subst
              (λ v.
                (was_created v.id (created t.id ∷ s.log) ≡ true)
                × Ready v.uses (created t.id ∷ s.log))
              (sym e)
              (
                ground (arith, ==_refl t.id),
                λ o i.
                    initialised_still o (created t.id) s.log
                      (all_initialised-Ready t.uses s.log objects o i),
              )
        | inr old ↦ threads_still s (created t.id) u (ok.threads u old)
      ];
      unused = ok.unused;
      proper = (not_lem (was_created t.id s.log) fresh, ok.proper);
    }
main_calls-KernelOk (sleeps n) rest s ok = record {
  to_come = ok.to_come;
  threads = ok.threads;
  unused = ok.unused;
  proper = ok.proper;
}

-- The order of the calls to come depends on what is initialised and created.
all_initialised_same :
    (l m : List Event)
    → ((o : ℕ) → was_initialised o l ≡ was_initialised o m)
    → (os : List ℕ) → all_initialised os l ≡ all_initialised os m
all_initialised_same l m i [] = refl
all_initialised_same l m i (o ∷ os) = rw (i o, all_initialised_same l m i os) refl

in_order_same :
    (l m : List Event)
    → ((o : ℕ) → was_initialised o l ≡ was_initialised o m)
    → ((k : ℕ) → was_created k l ≡ was_created k m)
    → (calls : List Action) → in_order l calls ≡ in_order m calls
in_order_same l m i c [] = refl
in_order_same l m i c (initialises o ∷ rest) =
    rw (i o, in_order_same (initialised o ∷ l) (initialised o ∷ m) (λ p. rw (i p) refl) c rest) refl
in_order_same l m i c (creates t ∷ rest) =
    rw
      (
        c t.id,
        all_initialised_same l m i t.uses,
        in_order_same (created t.id ∷ l) (created t.id ∷ m) i (λ k. rw (c k) refl) rest,
      )
      refl
in_order_same l m i c (sleeps n ∷ rest) = in_order_same l m i c rest

KernelStep-KernelOk : {s t : Kernel} → KernelStep s t → KernelOk s → KernelOk t
KernelStep-KernelOk {s} (main_calls a rest e) ok =
    main_calls-KernelOk a rest s (subst (λ l. KernelOk (record s { left = l })) e ok)
KernelStep-KernelOk {s} (thread_uses t o m u) ok =
    let (c, r) = ok.threads t m in
    record {
      to_come =
          in_order_same (used t.id o ∷ s.log) s.log (λ p. refl) (λ k. refl) s.left ∙ ok.to_come;
      threads = λ v i. threads_still s (used t.id o) v (ok.threads v i);
      unused = λ p h. elim (Bool-cases (p == o)) [
        | inl e ↦ absurd (
            true≢false
              (sym (r o u) ∙ ap (λ q. was_initialised q s.log) (sym ((==_iff p o).0 e)) ∙ h))
        | inr e ↦ rw e (ok.unused p h)
      ];
      proper = (r o u, c, ok.proper);
    }

KernelRun-KernelOk :
    {calls : List Action} {s : Kernel}
    → in_order [] calls ≡ true
    → KernelRun (boot calls) s
    → KernelOk s
KernelRun-KernelOk h here = record {
  to_come = h;
  threads = λ t m. absurd (Memᴰ.not-nil m);
  unused = λ o e. refl;
  proper = tt;
}
KernelRun-KernelOk h (next r st) = KernelStep-KernelOk st (KernelRun-KernelOk h r)

-- From calls in order, whatever their interleaving with the threads that they have created, the log stays
-- proper.
pub in_order-Proper :
    (calls : List Action) (s : Kernel)
    → in_order [] calls ≡ true
    → KernelRun (boot calls) s
    → Proper s.log
in_order-Proper calls s h r = let ok = KernelRun-KernelOk h r in ok.proper
