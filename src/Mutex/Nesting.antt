-- ===== src/Mutex/Nesting.antt =====
-- `recursive_function` gives back what it takes.
use zephyr_stm32h.Common.{
  ℕ, zero, suc, ◌+◌, ◌≤◌, ◌<◌, ◌≡◌, refl, inl, inr, some, arith, ltb, ==_iff, Bool-cases, pos,
}
use zephyr_stm32h.Mutex.{MutexApi, MutexLaws, recursive_function}

module _ {M : Type 0} {api : MutexApi M} {depth : M → ℕ → ℕ} (laws : MutexLaws api depth)
    (t : ℕ) where
  -- One lock, what keeps every depth, and one unlock.
  restored :
      (m m2 : M) (u : ℕ)
      → (api.k_mutex_lock m t).0 ≡ pos 0
      → ((v : ℕ) → depth m2 v ≡ depth (api.k_mutex_lock m t).1 v)
      → depth (api.k_mutex_unlock m2 t).1 u ≡ depth m u
  restored m m2 u free same = ground (
    arith,
    laws.lock_takes m t,
    ==_iff t u,
    laws.unlock_gives m2 t,
    laws.unlock_others m2 t u,
    laws.lock_others m t u,
    same t,
    same u,
  )

  -- With a mutex that the thread can lock, and a round for each level up to 3, the function returns, and
  -- every thread holds the mutex as often as before.
  pub recursive_function_balanced :
      (fuel level : ℕ) (m : M)
      → 3 < level + fuel
      → level ≤ 3
      → (api.k_mutex_lock m t).0 ≡ pos 0
      → (m' : M) × (recursive_function api t fuel level m ≡ some m')
        × ((u : ℕ) → depth m' u ≡ depth m u)
  unfolding recursive_function
  recursive_function_balanced zero level m h hl free = absurd (omega arith)
  recursive_function_balanced (suc fuel) level m h hl free =
      let m1 = (api.k_mutex_lock m t).1 in
      let taken = laws.lock_takes m t free in
      elim (Bool-cases (ltb level 3)) [
        | inl more ↦
            (let again = laws.lock_again m1 t (omega (arith, taken)) in
              let (m2, e, same) =
                recursive_function_balanced fuel (level + 1) m1 (omega arith) (ground arith)
                  again in
              (
                (api.k_mutex_unlock m2 t).1,
                rw (free, more, e) refl,
                λ u. restored m m2 u free same,
              ))
        | inr last ↦ (
          (api.k_mutex_unlock m1 t).1,
          rw (free, last) refl,
          λ u. restored m m1 u free (λ v. refl),
        )
      ]
