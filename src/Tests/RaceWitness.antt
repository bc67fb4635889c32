-- ===== src/Tests/RaceWitness.antt =====
-- The theorems on the accesses of `ota_process_rx` at concrete inputs.
use zephyr_stm32h.Common.{refl, [], arith}
use zephyr_stm32h.Ota.Rx.{rx_rdy, uart_cb}
use zephyr_stm32h.Ota.Rx.Bounded.{InBounds, race-InBounds}
use zephyr_stm32h.Ota.Rx.Buffer.{RxOk}
use zephyr_stm32h.Ota.Rx.Race.{
  tested, enters_loop, resting, Race, calls, code, irq, RaceRun, here, next,
}
use zephyr_stm32h.Tests.Toy.{Flash, toy_board, fresh, handshake, rx_of, rx_of-RxOk}

-- Between two calls, with nothing received.
abbrev quiet : Race Flash
quiet = record { pc = resting; world = fresh; rx = rx_of [] }

-- The request arrives between two calls, and the next one is about to parse it.
abbrev parsing : Race Flash
parsing = record quiet { pc = tested 0; rx = (uart_cb (rx_rdy handshake 0 20) quiet.rx).0 }

parsing_run : RaceRun toy_board quiet parsing
unfolding uart_cb
parsing_run =
    next (next (next here (irq (rx_rdy handshake 0 20) (omega arith))) (calls refl))
      (code (enters_loop 0 refl refl))

race-InBounds_example : RxOk parsing.rx × InBounds parsing.pc parsing.rx
race-InBounds_example =
    race-InBounds toy_board quiet parsing (rx_of-RxOk [] (omega arith)) refl parsing_run
