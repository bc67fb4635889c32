-- ===== src/Tests/LifoWitness.antt =====
-- The theorems on the LIFO at concrete inputs, with a stack in memory.
use zephyr_stm32h.Common.{
  ℕ, ◌+◌, ◌≤◌, ◌≡◌, refl, ap, ◌↔◌, true, Option, none, some, List, [], ◌∷◌, arith,
}
use zephyr_stm32h.Lifo.{
  LifoApi, LifoLaws, Tasks, push_tasks, pop_tasks, cmd_normal, cmd_count, Commands, dispatch_round,
  dispatcher_func, label_urgent, label_normal, executor_round,
}
use zephyr_stm32h.Lifo.Order.{pop_tasks-push_tasks}
use zephyr_stm32h.Lifo.Dispatch.{goes_on, dispatcher_func_iff, urgent_first}

abbrev toy_get : List ℕ → Option (ℕ × List ℕ)
toy_get [] = none
toy_get (p ∷ q) = some (p, q)

abbrev toy_lifo : LifoApi (List ℕ)
toy_lifo = record { k_lifo_put = λ q p. p ∷ q; k_lifo_get = toy_get }

toy_lifo_laws : LifoLaws toy_lifo (λ q. q)
toy_lifo_laws = record { put_adds = λ q p h. refl; get_last = λ q p ps h. (ps, ap toy_get h, refl) }

abbrev no_tasks : Tasks (List ℕ)
no_tasks = record { task_stack = []; tasks = λ p. 0; task_idx = 0 }

pop_tasks-push_tasks_example :
    (t : Tasks (List ℕ)) × (u : Tasks (List ℕ)) × (push_tasks toy_lifo 5 0 no_tasks ≡ some t)
    × (pop_tasks toy_lifo 5 t ≡ some (4 ∷ 3 ∷ 2 ∷ 1 ∷ 0 ∷ [], u))
    × (u.task_stack ≡ [])
pop_tasks-push_tasks_example = pop_tasks-push_tasks toy_lifo_laws 5 0 no_tasks (omega arith) tt

-- The number, in place of the text.
abbrev toy_text : ℕ → List ℕ
toy_text n = n ∷ []

abbrev no_commands : Commands (List ℕ)
no_commands = record {
  cmd_stack = [];
  cmd_pool = λ p. record { type = cmd_normal; name = [] };
  cmd_idx = 0;
  seq = 0;
}

dispatcher_func_iff_example :
    (goes_on (dispatcher_func toy_lifo toy_text toy_text 4 no_commands) ≡ true)
    ↔ (no_commands.cmd_idx + 8 ≤ cmd_count)
dispatcher_func_iff_example =
    dispatcher_func_iff toy_lifo toy_text toy_text 4 no_commands (omega arith)

urgent_first_example :
    (t : Commands (List ℕ)) × (u : Commands (List ℕ)) × (v : Commands (List ℕ)) × (dispatch_round
        toy_lifo toy_text toy_text no_commands
      ≡ some t)
    × (executor_round toy_lifo t ≡ some ((label_urgent, 1 ∷ []), u))
    × (executor_round toy_lifo u ≡ some ((label_normal, 0 ∷ []), v))
    × (v.cmd_stack ≡ [])
urgent_first_example =
    urgent_first toy_lifo toy_text toy_text toy_lifo_laws no_commands (omega arith) tt
