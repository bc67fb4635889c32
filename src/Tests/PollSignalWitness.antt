-- ===== src/Tests/PollSignalWitness.antt =====
-- The theorems on the signals at concrete inputs, with a signal in memory.
use zephyr_stm32h.Common.{ℕ, refl, Bool, true, false, [], ◌∷◌}
use zephyr_stm32h.PollSignal.{
  SignalApi, SignalLaws, polling, Board, command_value, raises_signal, polls, prints, resets,
}
use zephyr_stm32h.PollSignal.Order.{SignalRun, here, next, Picked, executed_was_raised}

record Signal : Type 0 where
  signaled : Bool
  value : ℕ

abbrev toy_signal : SignalApi Signal
toy_signal = record {
  k_poll_signal_raise = λ s r. record { signaled = true; value = r };
  k_poll_signal_reset = λ s. record s { signaled = false };
  result = λ s. s.value;
  k_poll = λ s. s.signaled;
}

toy_signal_laws : SignalLaws toy_signal
toy_signal_laws = record {
  raise_signals = λ s r. refl;
  raise_result = λ s r. refl;
  reset_clears = λ s. refl;
}

abbrev board : Board Signal
board = record {
  signal = record { signaled = false; value = 0 };
  raises = 0;
  worker = polling;
  raised = [];
  executed = [];
}

-- READ is executed, and WRITE waits.
abbrev board_end : Board Signal
board_end = record {
  signal = record { signaled = true; value = 2 };
  raises = 2;
  worker = polling;
  raised = 1 ∷ 2 ∷ [];
  executed = 1 ∷ [];
}

board_run : SignalRun toy_signal command_value board board_end
board_run =
    next
      (next (next (next (next here raises_signal) (polls refl refl)) (prints refl)) (resets refl))
      raises_signal

-- WRITE comes between the print and the reset, and is lost.
abbrev board_lost : Board Signal
board_lost = record {
  signal = record { signaled = false; value = 2 };
  raises = 2;
  worker = polling;
  raised = 1 ∷ 2 ∷ [];
  executed = 1 ∷ [];
}

lost_run : SignalRun toy_signal command_value board board_lost
lost_run =
    next
      (next (next (next (next here raises_signal) (polls refl refl)) (prints refl)) raises_signal)
      (resets refl)

executed_was_raised_example : Picked board_lost.executed board_lost.raised
executed_was_raised_example =
    executed_was_raised toy_signal_laws board board_lost
      (record { quiet = refl; worker_polls = refl; none_raised = refl; none_executed = refl })
      lost_run
