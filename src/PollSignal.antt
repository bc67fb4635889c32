-- ===== src/PollSignal.antt =====
-- The threads of app34_signal/src/main.c, over Zephyr's poll signals as a parameter.
pub mod Main
pub mod Order
use zephyr_stm32h.Common.{
  ℕ, zero, suc, ◌+◌, ◌-◌, ◌*◌, ◌/◌, ◌%◌, ◌^◌, ◌≤◌, ◌<◌, ◌≡◌, refl, sym, ap, subst, ◌∙◌, ◌≢◌, ◌↔◌,
  ◌⊎◌, inl, inr, Bool, true, false, true≢false, not, ◌&&◌, ◌||◌, Option, none, some, List, [], ◌∷◌,
  ◌++◌, append-nil, append_assoc, arith, ltb, leb, ◌==◌, if◌then◌else◌, lt→ltb, le→ltb, le→leb,
  lt→leb, ==_iff, ==_refl, Bool-cases, if_rule, length, get_or, set, take, drop, replicate, All,
  length-append, length-take, length-drop, length-replicate, length-set, take-append-drop,
  take-append_left, take-append_right, drop-append_right, take_all, get_or-append_left,
  get_or-append_right, get_or-take, get_or-drop, u8, u16, u32, is_negative, is_err, le16, le32,
  bytes16, bytes32,
}

-- `k_poll_signal_raise`, `k_poll_signal_reset`, the field `result`, and whether `k_poll` on the signal
-- returns; it waits while it does not.
pub record SignalApi (S : Type 0) : Type 0 where
  pub k_poll_signal_raise : S → ℕ → S
  pub k_poll_signal_reset : S → S
  pub result : S → ℕ
  pub k_poll : S → Bool

-- `k_poll` returns while the signal has been raised and not reset; the result is that of the last raise.
pub record SignalLaws {S : Type 0} (api : SignalApi S) : Type 0 where
  pub raise_signals : (s : S) (r : ℕ) → api.k_poll (api.k_poll_signal_raise s r) ≡ true
  pub raise_result : (s : S) (r : ℕ) → api.result (api.k_poll_signal_raise s r) ≡ r
  pub reset_clears : (s : S) → api.k_poll (api.k_poll_signal_reset s) ≡ false

-- Where `worker_func` or `signal_waiter_func` stands: at `k_poll`, behind it, or with the message printed and
-- the signal not yet reset.
pub data WorkerPc : Type 0 where
  polling polled printed : WorkerPc

-- `raises` counts those of the thread that raises; `raised` and `executed` are the results that were raised
-- and printed.
pub record Board (S : Type 0) : Type 0 where
  pub signal : S
  pub raises : ℕ
  pub worker : WorkerPc
  pub raised : List ℕ
  pub executed : List ℕ

-- `value n` is what the raise number `n` carries.
pub data SignalStep {S : Type 0} (api : SignalApi S) (value : ℕ → ℕ) (s : Board S)
    : Board S → Type 0 where
  raises_signal : SignalStep api value s (record s {
    signal = api.k_poll_signal_raise s.signal (value s.raises);
    raises = s.raises + 1;
    raised = s.raised ++ value s.raises ∷ [];
  })
  polls :
      s.worker ≡ polling
      → api.k_poll s.signal ≡ true
      → SignalStep api value s (record s { worker = polled })
  prints :
      s.worker ≡ polled
      → SignalStep api value s
          (record s { worker = printed; executed = s.executed ++ api.result s.signal ∷ [] })
  resets :
      s.worker ≡ printed
      → SignalStep api value s
          (record s { signal = api.k_poll_signal_reset s.signal; worker = polling })

-- CMD_READ, CMD_WRITE and CMD_ERASE in turn.
abbrev pub command_value : ℕ → ℕ
command_value n = n % 3 + 1

-- `commander_func` and `worker_func`.
abbrev pub CommandStep : {S : Type 0} → SignalApi S → Board S → Board S → Type 0
CommandStep api = SignalStep api command_value

-- `signal_sender_func` and `signal_waiter_func`.
abbrev pub BasicStep : {S : Type 0} → SignalApi S → Board S → Board S → Type 0
BasicStep api = SignalStep api (λ n. 0)
