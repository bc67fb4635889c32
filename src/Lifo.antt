-- ===== src/Lifo.antt =====
-- The threads of app37_lifo/src/main.c, over Zephyr's LIFO as a parameter.
pub mod Main
pub mod Order
pub mod Dispatch
use zephyr_stm32h.Common.{
  ℕ, ◌>>=◌, zero, suc, ◌+◌, ◌-◌, ◌*◌, ◌/◌, ◌%◌, ◌^◌, ◌≤◌, ◌<◌, ◌≡◌, refl, sym, ap, subst, ◌∙◌, ◌≢◌,
  ◌↔◌, ◌⊎◌, inl, inr, Bool, true, false, true≢false, not, ◌&&◌, ◌||◌, Option, none, some, List, [],
  ◌∷◌, ◌++◌, append-nil, append_assoc, arith, ltb, leb, ◌==◌, if◌then◌else◌, lt→ltb, le→ltb, le→leb,
  lt→leb, ==_iff, ==_refl, Bool-cases, if_rule, length, get_or, set, take, drop, replicate, All,
  length-append, length-take, length-drop, length-replicate, length-set, take-append-drop,
  take-append_left, take-append_right, drop-append_right, take_all, get_or-append_left,
  get_or-append_right, get_or-take, get_or-drop, u8, u16, u32, is_negative, is_err, le16, le32,
  bytes16, bytes32,
}

-- `k_lifo_put` and `k_lifo_get`, which waits while it has `none`. An item is the place in its array.
pub record LifoApi (Q : Type 0) : Type 0 where
  pub k_lifo_put : Q → ℕ → Q
  pub k_lifo_get : Q → Option (ℕ × Q)

-- `contents q` are the items from the last put on.
pub record LifoLaws {Q : Type 0} (api : LifoApi Q) (contents : Q → List ℕ) : Type 0 where
  pub put_adds :
      (q : Q) (p : ℕ)
      → All (λ x. x ≢ p) (contents q)
      → contents (api.k_lifo_put q p) ≡ p ∷ contents q
  pub get_last :
      (q : Q) (p : ℕ) (ps : List ℕ)
      → contents q ≡ p ∷ ps
      → (q' : Q) × (api.k_lifo_get q ≡ some (p, q')) × (contents q' ≡ ps)

abbrev pub task_count : ℕ
task_count = 5

-- `tasks` has the numbers of the tasks; `task_idx` is the next free one.
pub record Tasks (Q : Type 0) : Type 0 where
  pub task_stack : Q
  pub tasks : ℕ → ℕ
  pub task_idx : ℕ

-- A round of `push_func`; `none` is a write beyond the array.
abbrev pub push_task : {Q : Type 0} → LifoApi Q → ℕ → Tasks Q → Option (Tasks Q)
push_task api i s =
    if ltb s.task_idx task_count
    then some (record {
      task_stack = api.k_lifo_put s.task_stack s.task_idx;
      tasks = λ p. if p == s.task_idx then i else s.tasks p;
      task_idx = s.task_idx + 1;
    })
    else none

-- The rounds of `push_func` from the round `i` on, `left` of them.
unfoldable pub push_tasks : {Q : Type 0} → LifoApi Q → ℕ → ℕ → Tasks Q → Option (Tasks Q)
push_tasks api zero i s = some s
push_tasks api (suc left) i s = do t ← push_task api i s; push_tasks api left (i + 1) t

abbrev pub push_func : {Q : Type 0} → LifoApi Q → Tasks Q → Option (Tasks Q)
push_func api s = push_tasks api 5 0 s

-- The rounds of `pop_func`, with the numbers it prints; `none` is a round that waits.
unfoldable pub pop_tasks : {Q : Type 0} → LifoApi Q → ℕ → Tasks Q → Option (List ℕ × Tasks Q)
pop_tasks api zero s = some ([], s)
pop_tasks api (suc left) s = do
  (p, q) ← api.k_lifo_get s.task_stack
  (ids, t) ← pop_tasks api left (record s { task_stack = q })
  some (s.tasks p ∷ ids, t)

abbrev pub pop_func : {Q : Type 0} → LifoApi Q → Tasks Q → Option (List ℕ × Tasks Q)
pop_func api s = pop_tasks api 5 s

pub data CmdType : Type 0 where
  cmd_normal cmd_urgent cmd_critical : CmdType

pub record Command : Type 0 where
  pub type : CmdType
  pub name : List ℕ

abbrev pub cmd_count : ℕ
cmd_count = 6

-- `seq` is the local of `dispatcher_func`.
pub record Commands (Q : Type 0) : Type 0 where
  pub cmd_stack : Q
  pub cmd_pool : ℕ → Command
  pub cmd_idx : ℕ
  pub seq : ℕ

-- Takes the next place of the pool, fills it and puts it; `none` is a write beyond the pool.
abbrev pub put_command : {Q : Type 0} → LifoApi Q → Command → Commands Q → Option (Commands Q)
put_command api c s =
    if ltb s.cmd_idx cmd_count
    then some (record s {
      cmd_stack = api.k_lifo_put s.cmd_stack s.cmd_idx;
      cmd_pool = λ p. if p == s.cmd_idx then c else s.cmd_pool p;
      cmd_idx = s.cmd_idx + 1;
    })
    else none

-- A round of `dispatcher_func`. `normal` and `urgent` are the texts that `snprintf` makes of a number.
abbrev pub dispatch_round :
    {Q : Type 0} → LifoApi Q → (ℕ → List ℕ) → (ℕ → List ℕ) → Commands Q → Option (Commands Q)
dispatch_round api normal urgent s = do
  t ← put_command api (record { type = cmd_normal; name = normal s.seq }) s
  put_command api (record { type = cmd_urgent; name = urgent (t.seq + 1) })
      (record t { seq = t.seq + 1 })

-- `n` rounds of `dispatcher_func`.
unfoldable pub dispatcher_func :
    {Q : Type 0} → LifoApi Q → (ℕ → List ℕ) → (ℕ → List ℕ) → ℕ → Commands Q → Option (Commands Q)
dispatcher_func api normal urgent zero s = some s
dispatcher_func api normal urgent (suc n) s = do
  t ← dispatch_round api normal urgent s
  dispatcher_func api normal urgent n t

pub data Label : Type 0 where
  label_urgent label_critical label_normal : Label

abbrev pub label_of : CmdType → Label
label_of cmd_urgent = label_urgent
label_of cmd_critical = label_critical
label_of cmd_normal = label_normal

-- A round of `executor_func`, with what it prints; `none` is a round that waits.
abbrev pub executor_round :
    {Q : Type 0} → LifoApi Q → Commands Q → Option ((Label × List ℕ) × Commands Q)
executor_round api s = do
  (p, q) ← api.k_lifo_get s.cmd_stack
  some ((label_of (s.cmd_pool p).type, (s.cmd_pool p).name), record s { cmd_stack = q })
