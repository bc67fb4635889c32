-- ===== src/Mutex/Exclusion.antt =====
-- No two threads are behind `k_mutex_lock` at the same time.
use zephyr_stm32h.Common.{ℕ, ◌≡◌, sym, ap, ◌∙◌, arith, ==_iff}
use zephyr_stm32h.Mutex.{
  MutexApi, MutexLaws, Place, outside, inside, Contest, Turn, locks, refused, unlocks,
}

pub data Play {M : Type 0} (api : MutexApi M) (s : Contest M) : Contest M → Type 0 where
  here : Play api s s
  next : {t u : Contest M} → Play api s t → Turn api t u → Play api s u

-- The depth of a thread by its place.
abbrev pub held : Place → ℕ
held outside = 0
held inside = 1

module _ {M : Type 0} {api : MutexApi M} {depth : M → ℕ → ℕ} (laws : MutexLaws api depth) where
  -- Each place agrees with the depth.
  abbrev pub Fair : Contest M → Type 0
  Fair s = (t : ℕ) → depth s.mutex t ≡ held (s.place t)

  Turn-Fair : {s s' : Contest M} → Turn api s s' → Fair s → Fair s'
  Turn-Fair {s} (locks t p ok) h u =
      ground (arith, h u, h t, ==_iff u t, laws.lock_takes s.mutex t, laws.lock_others s.mutex t u)
  Turn-Fair {s} (refused t p bad) h u =
      ground (arith, h u, h t, ==_iff u t, laws.lock_fails s.mutex t, laws.lock_others s.mutex t u)
  Turn-Fair {s} (unlocks t p) h u =
      ground
        (arith, h u, h t, ==_iff u t, laws.unlock_gives s.mutex t, laws.unlock_others s.mutex t u)

  -- At most one thread is inside.
  abbrev pub Alone : Contest M → Type 0
  Alone s = (t u : ℕ) → s.place t ≡ inside → s.place u ≡ inside → t ≡ u

  Turn-Alone : {s s' : Contest M} → Turn api s s' → Fair s → Alone s → Alone s'
  Turn-Alone {s} (locks t p ok) h alone a b ha hb = ground (
    arith,
    h a,
    h b,
    ==_iff a t,
    ==_iff b t,
    laws.lock_free s.mutex t a,
    laws.lock_free s.mutex t b,
  )
  Turn-Alone {s} (refused t p bad) h alone a b ha hb = alone a b ha hb
  Turn-Alone {s} (unlocks t p) h alone a b ha hb = ground (arith, alone a b, ==_iff a t, ==_iff b t)

  Play-Alone : {s s' : Contest M} → Fair s → Alone s → Play api s s' → Fair s' × Alone s'
  Play-Alone h alone here = (h, alone)
  Play-Alone h alone (next r st) =
      let (h', alone') = Play-Alone h alone r in (Turn-Fair st h', Turn-Alone st h' alone')

  -- From a mutex that no thread holds, with all threads outside, no turns of any number of threads bring
  -- two of them inside together, also if locks time out; and the thread that is inside holds the mutex
  -- once.
  pub mutual_exclusion :
      (s s' : Contest M) (t u : ℕ)
      → ((v : ℕ) → (s.place v ≡ outside) × (depth s.mutex v ≡ 0))
      → Play api s s'
      → s'.place t ≡ inside
      → s'.place u ≡ inside
      → (t ≡ u) × (depth s'.mutex t ≡ 1)
  mutual_exclusion s s' t u start r ht hu =
      let fair : Fair s = λ v. (start v).1 ∙ ap held (sym (start v).0) in
      let alone : Alone s = λ a b ha hb. ground (arith, start a) in
      let (fair', alone') = Play-Alone fair alone r in (alone' t u ht hu, fair' t ∙ ap held ht)
