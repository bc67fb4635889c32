-- ===== src/Mailbox.antt =====
-- The threads of app38_mailbox/src/main.c that exchange messages asynchronously, over Zephyr's mailbox and semaphore
-- as parameters.
pub mod Main
pub mod Handover
use zephyr_stm32h.Common.{
  ℕ, zero, suc, ◌+◌, ◌-◌, ◌*◌, ◌/◌, ◌%◌, ◌^◌, ◌≤◌, ◌<◌, ◌≡◌, refl, sym, ap, subst, ◌∙◌, ◌≢◌, ◌↔◌,
  ◌⊎◌, inl, inr, Bool, true, false, true≢false, not, ◌&&◌, ◌||◌, Option, none, some, List, [], ◌∷◌,
  ◌++◌, append-nil, append_assoc, arith, ltb, leb, ◌==◌, if◌then◌else◌, lt→ltb, le→ltb, le→leb,
  lt→leb, ==_iff, ==_refl, Bool-cases, if_rule, length, get_or, set, take, drop, replicate, All,
  length-append, length-take, length-drop, length-replicate, length-set, take-append-drop,
  take-append_left, take-append_right, drop-append_right, take_all, get_or-append_left,
  get_or-append_right, get_or-take, get_or-drop, u8, u16, u32, is_negative, is_err, le16, le32,
  bytes16, bytes32,
}

-- K_ANY, which is NULL, in place of a thread.
abbrev pub k_any : ℕ
k_any = 0

-- sizeof(struct async_msg)
abbrev pub async_msg_size : ℕ
async_msg_size = 32

-- `k_mbox_async_put` of the `info` and the `tx_target_thread` of a descriptor, and `k_mbox_get` by
-- `async_receiver_func`, with the `rx_source_thread` of its descriptor, which waits while it has `none`, and
-- else gives the `info` and the sender. The data stay with the sender until `k_mbox_data_get` copies them.
pub record MboxApi (B : Type 0) : Type 0 where
  pub k_mbox_async_put : B → ℕ → ℕ → B
  pub k_mbox_get : B → ℕ → Option (ℕ × ℕ × B)

-- `queued b` are the messages that no thread has received. A message reaches `receiver` if it is for it or
-- for any thread, and if it takes messages of `sender` or of any thread.
pub record MboxLaws {B : Type 0} (api : MboxApi B) (queued : B → List ℕ) (sender receiver : ℕ)
    : Type 0 where
  pub put_adds :
      (b : B) (info target : ℕ)
      → (target ≡ k_any) ⊎ (target ≡ receiver)
      → queued (api.k_mbox_async_put b info target) ≡ queued b ++ info ∷ []
  pub get_first :
      (b b' : B) (info source from : ℕ)
      → (source ≡ k_any) ⊎ (source ≡ sender)
      → api.k_mbox_get b source ≡ some (info, from, b')
      → (queued b ≡ info ∷ queued b') × (from ≡ sender)

-- `k_sem_take`, which waits while it has `none`, and `k_sem_give`, which `k_mbox_data_get` calls.
pub record SemApi (S : Type 0) : Type 0 where
  pub k_sem_take : S → Option S
  pub k_sem_give : S → S

-- `units s` can be taken; a give adds one up to the limit, which is not 0.
pub record SemLaws {S : Type 0} (api : SemApi S) (units : S → ℕ) : Type 0 where
  pub take_one : (s s' : S) → api.k_sem_take s ≡ some s' → units s ≡ suc (units s')
  pub give_one : (s : S) → units s ≡ 0 → units (api.k_sem_give s) ≡ 1

-- Where `async_sender_func` stands: in front of the next message, with it prepared, or waiting for
-- `done_sem`.
pub data SenderPc : Type 0 where
  preparing prepared awaiting : SenderPc

-- Where `async_receiver_func` stands: at `k_mbox_get`, or with a message that it has received.
pub data ReceiverPc : Type 0 where
  receiving : ReceiverPc
  holding : ℕ → ReceiverPc

-- `text` and `rx_text` are `data.text` of the sender and of the receiver, and `tx_target`, `rx_source` and
-- `rx_size` the fields of their descriptors that the code does not initialise. `log` are the numbers
-- and texts that the receiver has printed.
pub record Post (B S : Type 0) : Type 0 where
  pub async_mbox : B
  pub done_sem : S
  pub text : List ℕ
  pub tx_target : ℕ
  pub count : ℕ
  pub rx_text : List ℕ
  pub rx_source : ℕ
  pub rx_size : ℕ
  pub sender : SenderPc
  pub receiver : ReceiverPc
  pub log : List (ℕ × List ℕ)

-- What `%s` prints of an array in which a string ends.
abbrev pub c_string : List ℕ → List ℕ
c_string [] = []
c_string (x ∷ xs) = let rest = c_string xs in if x == 0 then [] else x ∷ rest

-- The receiver's array behind `k_mbox_data_get`.
abbrev pub data_get : ℕ → List ℕ → List ℕ → List ℕ
data_get rx_size text rx_text = take rx_size text ++ drop rx_size rx_text

-- `print n` is what `snprintf` makes of "async-msg-%d". `count` is an `int`, and stays one.
pub data PostStep {B S : Type 0} (mbox : MboxApi B) (sem : SemApi S) (print : ℕ → List ℕ)
    (s : Post B S) : Post B S → Type 0 where
  sender_prepares :
      s.sender ≡ preparing
      → s.count + 1 < 2 ^ 31
      → PostStep mbox sem print s (record s {
        count = s.count + 1;
        text = print (s.count + 1) ++ 0 ∷ drop (length (print (s.count + 1)) + 1) s.text;
        sender = prepared;
      })
  sender_puts :
      s.sender ≡ prepared
      → PostStep mbox sem print s (record s {
        async_mbox = mbox.k_mbox_async_put s.async_mbox s.count s.tx_target;
        sender = awaiting;
      })
  sender_takes :
      (d : S)
      → s.sender ≡ awaiting
      → sem.k_sem_take s.done_sem ≡ some d
      → PostStep mbox sem print s (record s { done_sem = d; sender = preparing })
  -- The size that the receiver asks for becomes that of the message, if it is larger.
  receiver_gets :
      (info from : ℕ) (b : B)
      → s.receiver ≡ receiving
      → mbox.k_mbox_get s.async_mbox s.rx_source ≡ some (info, from, b)
      → PostStep mbox sem print s (record s {
        async_mbox = b;
        receiver = holding info;
        rx_source = from;
        rx_size = if ltb async_msg_size s.rx_size then async_msg_size else s.rx_size;
      })
  -- `k_mbox_data_get` copies what the sender's data are now, as many bytes as the receiver asks for.
  receiver_copies :
      (info : ℕ)
      → s.receiver ≡ holding info
      → PostStep mbox sem print s (record s {
        done_sem = sem.k_sem_give s.done_sem;
        receiver = receiving;
        rx_text = data_get s.rx_size s.text s.rx_text;
        log = s.log ++ (info, c_string (data_get s.rx_size s.text s.rx_text)) ∷ [];
      })
