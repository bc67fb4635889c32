-- ===== src/Tests/StartupWitness.antt =====
-- The theorem on the start of the applications at a concrete run of app32_mutex.
use mathlib.Core.List.{Memᴰ}
use zephyr_stm32h.Common.{refl, [], ◌∷◌, drop}
use zephyr_stm32h.Startup.{
  Thread, initialised, created, used, Kernel, main_calls, thread_uses, KernelRun, here, next, boot,
  Proper,
}
use zephyr_stm32h.Startup.Applications.{mutex, program, threads_find_objects_ready}

-- The first thread, with the mutex that it uses.
abbrev thread1 : Thread
thread1 = record { id = 0; priority = 7; uses = 0 ∷ [] }

-- The mutex is initialised, the thread is created and locks the mutex.
abbrev locked : Kernel
locked = record {
  left = drop 2 (program mutex);
  running = thread1 ∷ [];
  log = used 0 0 ∷ created 0 ∷ initialised 0 ∷ [];
}

locked_run : KernelRun (boot (program mutex)) locked
locked_run =
    next (next (next here (main_calls _ _ refl)) (main_calls _ _ refl))
      (thread_uses thread1 0 (Memᴰ.head refl) (Memᴰ.head refl))

threads_find_objects_ready_example : Proper locked.log
threads_find_objects_ready_example = threads_find_objects_ready mutex locked locked_run
