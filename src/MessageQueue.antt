-- ===== src/MessageQueue.antt =====
-- The threads of app35_mq/src/main.c, over Zephyr's message queue as a parameter.
pub mod Main
pub mod Order
use zephyr_stm32h.Common.{
  ℕ, zero, suc, ◌+◌, ◌-◌, ◌*◌, ◌/◌, ◌%◌, ◌^◌, ◌≤◌, ◌<◌, ◌≡◌, refl, sym, ap, subst, ◌∙◌, ◌≢◌, ◌↔◌,
  ◌⊎◌, inl, inr, Bool, true, false, true≢false, not, ◌&&◌, ◌||◌, Option, none, some, List, [], ◌∷◌,
  ◌++◌, append-nil, append_assoc, arith, ltb, leb, ◌==◌, if◌then◌else◌, lt→ltb, le→ltb, le→leb,
  lt→leb, ==_iff, ==_refl, Bool-cases, if_rule, length, get_or, set, take, drop, replicate, All,
  length-append, length-take, length-drop, length-replicate, length-set, take-append-drop,
  take-append_left, take-append_right, drop-append_right, take_all, get_or-append_left,
  get_or-append_right, get_or-take, get_or-drop, u8, u16, u32, is_negative, is_err, le16, le32,
  bytes16, bytes32, ℤ, pos,
}

-- `k_msgq_put` and `k_msgq_get` of messages of type `A`, with what they return.
pub record MsgqApi (Q A : Type 0) : Type 0 where
  pub k_msgq_put : Q → A → ℤ × Q
  pub k_msgq_get : Q → Option (A × Q)

-- `contents q` are the messages in the order of their `k_msgq_put`. A put takes place only
-- while the queue holds fewer than `limit` messages; one that fails changes nothing.
pub record MsgqLaws {Q A : Type 0} (api : MsgqApi Q A) (contents : Q → List A) (limit : ℕ)
    : Type 0 where
  pub put_adds :
      (q : Q) (m : A)
      → (api.k_msgq_put q m).0 ≡ pos 0
      → contents (api.k_msgq_put q m).1 ≡ contents q ++ m ∷ []
  pub put_room : (q : Q) (m : A) → (api.k_msgq_put q m).0 ≡ pos 0 → length (contents q) < limit
  pub put_fails :
      (q : Q) (m : A)
      → (api.k_msgq_put q m).0 ≢ pos 0
      → contents (api.k_msgq_put q m).1 ≡ contents q
  pub get_first :
      (q q' : Q) (m : A) → api.k_msgq_get q ≡ some (m, q') → contents q ≡ m ∷ contents q'

pub record SensorData : Type 0 where
  pub id : ℕ
  pub temperature : ℕ
  pub humidity : ℕ
  pub timestamp : ℕ

pub record Command : Type 0 where
  pub cmd_id : ℕ
  pub param : ℕ

-- How many messages `sensor_msgq` and `cmd_msgq` hold.
abbrev pub sensor_limit : ℕ
sensor_limit = 5

abbrev pub cmd_limit : ℕ
cmd_limit = 3

-- The next message from the last one. `data.id`, which the code does not initialise, is taken to start at a
-- number that is not negative; `cmd.cmd_id` likewise.
abbrev pub next_reading : ℕ → SensorData → SensorData
next_reading now d =
    let id : ℕ = d.id + 1 in
    record { id = id; temperature = 25 + id % 10; humidity = 60 + id % 20; timestamp = u32 now }

abbrev pub next_command : ℕ → Command → Command
next_command now c = let id : ℕ = c.cmd_id + 1 in record { cmd_id = id; param = id * 10 }

-- A queue, `data` or `cmd` of the thread that sends, what it has sent and what it has given up, and
-- what the thread that receives has printed.
pub record Link (Q A : Type 0) : Type 0 where
  pub queue : Q
  pub last : A
  pub sent : List A
  pub given_up : List A
  pub received : List A

-- A round of the thread that sends, at a time, and of the thread that receives; the latter may time out.
-- Both examples have this form. `fits` says that a number stays in the range of its type.
pub data LinkStep {Q A : Type 0} (api : MsgqApi Q A) (make : ℕ → A → A) (fits : A → Bool)
    (s : Link Q A) : Link Q A → Type 0 where
  sends :
      (now : ℕ)
      → fits (make now s.last) ≡ true
      → (api.k_msgq_put s.queue (make now s.last)).0 ≡ pos 0
      → LinkStep api make fits s (record s {
        queue = (api.k_msgq_put s.queue (make now s.last)).1;
        last = make now s.last;
        sent = s.sent ++ make now s.last ∷ [];
      })
  gives_up :
      (now : ℕ)
      → fits (make now s.last) ≡ true
      → (api.k_msgq_put s.queue (make now s.last)).0 ≢ pos 0
      → LinkStep api make fits s (record s {
        queue = (api.k_msgq_put s.queue (make now s.last)).1;
        last = make now s.last;
        given_up = s.given_up ++ make now s.last ∷ [];
      })
  receives :
      (m : A) (q : Q)
      → api.k_msgq_get s.queue ≡ some (m, q)
      → LinkStep api make fits s (record s { queue = q; received = s.received ++ m ∷ [] })
  times_out : api.k_msgq_get s.queue ≡ none → LinkStep api make fits s s

-- `int` has 32 bits.
abbrev pub reading_fits : SensorData → Bool
reading_fits d = ltb d.id (2 ^ 31)

abbrev pub command_fits : Command → Bool
command_fits c = ltb c.cmd_id (2 ^ 31) && ltb c.param (2 ^ 31)

-- `sensor_func` and `processor_func`.
abbrev pub SensorStep :
    {Q : Type 0} → MsgqApi Q SensorData → Link Q SensorData → Link Q SensorData → Type 0
SensorStep api = LinkStep api next_reading reading_fits

-- `cmd_sender_func` and `cmd_handler_func`.
abbrev pub CommandStep : {Q : Type 0} → MsgqApi Q Command → Link Q Command → Link Q Command → Type 0
CommandStep api = LinkStep api next_command command_fits
