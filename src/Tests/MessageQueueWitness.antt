-- ===== src/Tests/MessageQueueWitness.antt =====
-- The theorems on the message queues at concrete inputs, with a queue in memory.
use zephyr_stm32h.Common.{
  ℕ, ◌+◌, ◌*◌, ◌%◌, ◌≤◌, ◌≡◌, refl, sym, ap, Option, none, some, List, [], ◌∷◌, ◌++◌, arith, ltb,
  if◌then◌else◌, length, All, ℤ, pos, negsuc,
}
use mathlib.Core.Option.{some-injective, some-ne-none}
use zephyr_stm32h.MessageQueue.{
  MsgqApi, MsgqLaws, SensorData, Command, sensor_limit, cmd_limit, Link, sends, gives_up, receives,
  SensorStep, CommandStep,
}
use zephyr_stm32h.MessageQueue.Order.{
  LinkRun, here, next, Rising, IsReading, IsCommand, readings_in_order, commands_in_order,
}

module _ {A : Type 0} where
  abbrev toy_get : List A → Option (A × List A)
  toy_get [] = none
  toy_get (m ∷ q) = some (m, q)

  abbrev toy_put : ℕ → List A → A → ℤ × List A
  toy_put limit q m = if ltb (length q) limit then (pos 0, q ++ m ∷ []) else (negsuc 34, q)

  toy_first : (q q' : List A) (m : A) → toy_get q ≡ some (m, q') → q ≡ m ∷ q'
  toy_first [] q' m h = absurd (some-ne-none _ (sym h))
  toy_first (x ∷ q) q' m h = ap (λ r. r.0 ∷ r.1) (some-injective _ _ h)

abbrev toy_msgq : (A : Type 0) → ℕ → MsgqApi (List A) A
toy_msgq A limit = record { k_msgq_put = toy_put limit; k_msgq_get = toy_get }

toy_msgq_laws : (A : Type 0) (limit : ℕ) → MsgqLaws (toy_msgq A limit) (λ q. q) limit
toy_msgq_laws A limit = record {
  put_adds = λ q m h. ground (arith, h);
  put_room = λ q m h. ground (arith, h);
  put_fails = λ q m h. ground (arith, h);
  get_first = toy_first;
}

abbrev reading : ℕ → SensorData
reading id = record { id = id; temperature = 25 + id % 10; humidity = 60 + id % 20; timestamp = 7 }

abbrev sensor_start : Link (List SensorData) SensorData
sensor_start = record { queue = []; last = reading 8; sent = []; given_up = []; received = [] }

abbrev sensor_end : Link (List SensorData) SensorData
sensor_end = record {
  queue = reading 10 ∷ [];
  last = reading 10;
  sent = reading 9 ∷ reading 10 ∷ [];
  given_up = [];
  received = reading 9 ∷ [];
}

sensor_run : LinkRun (SensorStep (toy_msgq SensorData sensor_limit)) sensor_start sensor_end
sensor_run =
    next (next (next here (sends 7 refl refl)) (sends 7 refl refl))
      (receives (reading 9) (reading 10 ∷ []) refl)

readings_in_order_example :
    (sensor_end.sent ≡ sensor_end.received ++ sensor_end.queue)
    × (length sensor_end.queue ≤ 5)
    × Rising (λ d. d.id) sensor_start.last.id sensor_end.sent sensor_end.last.id
    × All IsReading sensor_end.sent
    × (sensor_end.last.id
        ≡ sensor_start.last.id + length sensor_end.sent + length sensor_end.given_up)
readings_in_order_example =
    readings_in_order (toy_msgq_laws SensorData sensor_limit) sensor_start sensor_end
      (record { empty = refl; none_sent = refl; none_given_up = refl; none_received = refl })
      sensor_run

abbrev command : ℕ → Command
command id = record { cmd_id = id; param = id * 10 }

abbrev cmd_start : Link (List Command) Command
cmd_start = record { queue = []; last = command 0; sent = []; given_up = []; received = [] }

-- The fourth command finds the queue full.
abbrev cmd_end : Link (List Command) Command
cmd_end = record {
  queue = command 2 ∷ command 3 ∷ [];
  last = command 4;
  sent = command 1 ∷ command 2 ∷ command 3 ∷ [];
  given_up = command 4 ∷ [];
  received = command 1 ∷ [];
}

cmd_run : LinkRun (CommandStep (toy_msgq Command cmd_limit)) cmd_start cmd_end
cmd_run =
    next
      (next (next (next (next here (sends 0 refl refl)) (sends 0 refl refl)) (sends 0 refl refl))
        (gives_up 0 refl (λ h. absurd (ground (arith, h)))))
      (receives (command 1) (command 2 ∷ command 3 ∷ []) refl)

commands_in_order_example :
    (cmd_end.sent ≡ cmd_end.received ++ cmd_end.queue)
    × (length cmd_end.queue ≤ 3)
    × Rising (λ c. c.cmd_id) cmd_start.last.cmd_id cmd_end.sent cmd_end.last.cmd_id
    × All IsCommand cmd_end.sent
    × (cmd_end.last.cmd_id ≡ cmd_start.last.cmd_id + length cmd_end.sent + length cmd_end.given_up)
commands_in_order_example =
    commands_in_order (toy_msgq_laws Command cmd_limit) cmd_start cmd_end
      (record { empty = refl; none_sent = refl; none_given_up = refl; none_received = refl })
      cmd_run
