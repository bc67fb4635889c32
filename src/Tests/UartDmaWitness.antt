-- ===== src/Tests/UartDmaWitness.antt =====
-- The theorem on the buffers at a concrete input, with a driver in memory.
use zephyr_stm32h.Common.{ℕ, refl, true, ℤ, pos, negsuc}
use zephyr_stm32h.UartDma.{
  uart_rx_buf_request, uart_rx_buf_released, UartApi, RxState, stopped, fills, fills_then, RxMove,
  asks, goes_on, UartLaws, Uart, calls_back,
}
use zephyr_stm32h.UartDma.Buffers.{UartRun, here, next, BuffersOk, buffers_alternate}

abbrev toy_rsp : RxState → ℕ → ℤ × RxState
toy_rsp (fills f) b = (pos 0, fills_then f b)
toy_rsp r b = (negsuc 15, r)

abbrev toy_uart : UartApi RxState
toy_uart = record {
  device_is_ready = λ d. true;
  uart_callback_set = λ d. (pos 0, d);
  uart_rx_enable = λ d b. (pos 0, fills b);
  uart_rx_buf_rsp = toy_rsp;
  uart_tx = λ d p. (pos 0, d);
}

toy_uart_laws : UartLaws toy_uart RxMove (λ d. d)
toy_uart_laws = record {
  moves = λ d d' e m. m;
  enable_starts = λ d b e. refl;
  rsp_accepted = λ d f b e. rw e refl;
  tx_keeps = λ d p. refl;
}

abbrev off : Uart RxState
off = record { uart = stopped; rx_buf_idx = 0 }

abbrev on : Uart RxState
on = record { uart = fills 0; rx_buf_idx = 1 }

-- The first buffer is full, and the second one is being filled.
abbrev swapped : Uart RxState
swapped = record { uart = fills 1; rx_buf_idx = 0 }

uart_run : UartRun toy_uart RxMove on swapped
uart_run =
    next (next here (calls_back uart_rx_buf_request (fills 0) (asks 0)))
      (calls_back (uart_rx_buf_released 0) (fills 1) (goes_on 0 1))

buffers_alternate_example : BuffersOk swapped.uart swapped.rx_buf_idx
buffers_alternate_example = buffers_alternate toy_uart_laws off on swapped refl uart_run
