-- ===== src/Ota/Rx/Bounded.antt =====
-- `ota_process_rx` and the callback stay in the receive buffer, wherever the interrupts come.
use zephyr_stm32h.Common.{
  ◌∙◌, ℕ, ◌+◌, ◌≤◌, ◌<◌, ◌≡◌, sym, subst, ◌++◌, arith, take, drop, length-append, length-take,
  length-drop,
}
use zephyr_stm32h.Ota.World.{Board}
use zephyr_stm32h.Ota.Rx.{UartEvent, rx_rdy, Rx, rx_buf_size, uart_cb}
use zephyr_stm32h.Ota.Rx.Buffer.{RxOk, EventOk, uart_cb-RxOk}
use zephyr_stm32h.Ota.Rx.Race.{
  RxPc, resting, tested, moving, shrinking, copying, storing, Race, CallStep, enters_loop,
  ends_loop, parses, parses_nothing, rejects, processes, some_left, not_some_left, sizes_move,
  moves, loads_len, stores_len, all_read, not_all_read, empties, RaceStep, calls, code, irq, stores,
  RaceRun, here, next,
}

-- What is parsed lies in the bytes received, and what is moved in the buffer; the numbers that are subtracted
-- do not go below 0.
abbrev pub InBounds : RxPc → Rx → Type 0
InBounds (tested p) rx = p < rx.rx_len
InBounds (moving p) rx = p < rx.rx_len
InBounds (copying p n) rx = (p + n ≤ rx_buf_size) × (p ≤ rx.rx_len)
InBounds (shrinking p) rx = p ≤ rx.rx_len
InBounds (storing p l) rx = (p ≤ l) × (l ≤ rx_buf_size)
InBounds _ rx = Unit {0}

-- A store of the driver or an interrupt does not take bytes away.
uart_cb_grows :
    (e : UartEvent) (rx : Rx) → EventOk e → RxOk rx → rx.rx_len ≤ (uart_cb e rx).0.rx_len
unfolding uart_cb
uart_cb_grows (rx_rdy buf offset len) rx h ok = ground (arith, ok.bound)
uart_cb_grows _ rx h ok = omega arith

irq-InBounds : (pc : RxPc) (rx rx' : Rx) → rx.rx_len ≤ rx'.rx_len → InBounds pc rx → InBounds pc rx'
irq-InBounds (tested p) rx rx' l h = omega (arith, l, h)
irq-InBounds (moving p) rx rx' l h = omega (arith, l, h)
irq-InBounds (copying p n) rx rx' l (h, k) = (h, omega (arith, l, k))
irq-InBounds (shrinking p) rx rx' l h = omega (arith, l, h)
irq-InBounds (storing p k) rx rx' l h = h
irq-InBounds _ rx rx' l h = tt

record BoundsOk {F : Type 0} (s : Race F) : Type 0 where
  buffer : RxOk s.rx
  place : InBounds s.pc s.rx

bounds_at : {F : Type 0} {s : Race F} {pc : RxPc} → BoundsOk s → s.pc ≡ pc → InBounds pc s.rx
bounds_at {s} ok e = subst (λ pc. InBounds pc s.rx) e ok.place

moves-RxOk :
    (p n : ℕ) (rx : Rx)
    → RxOk rx
    → p + n ≤ rx_buf_size
    → RxOk (record rx { rx_buf = take n (drop p rx.rx_buf) ++ drop n rx.rx_buf })
moves-RxOk p n rx ok h = record {
  size = omega (
    arith,
    length-append (take n (drop p rx.rx_buf)) (drop n rx.rx_buf),
    length-take n (drop p rx.rx_buf),
    length-drop p rx.rx_buf,
    length-drop n rx.rx_buf,
    ok.size,
    h,
  );
  bound = ok.bound;
}

CallStep-BoundsOk :
    {F : Type 0} (b : Board F) {s t : Race F} → CallStep b s t → BoundsOk s → BoundsOk t
CallStep-BoundsOk b (enters_loop p e h) ok = record {
  buffer = ok.buffer;
  place = ground (arith, h);
}
CallStep-BoundsOk b (ends_loop p e h) ok = record { buffer = ok.buffer; place = tt }
CallStep-BoundsOk b (parses p n g e r h) ok = record { buffer = ok.buffer; place = tt }
CallStep-BoundsOk b (parses_nothing p n g e r h) ok = record { buffer = ok.buffer; place = tt }
CallStep-BoundsOk b (rejects p e r) ok = record { buffer = ok.buffer; place = tt }
CallStep-BoundsOk b (processes p n g e r) ok = record { buffer = ok.buffer; place = tt }
CallStep-BoundsOk b (some_left p e h) ok = record { buffer = ok.buffer; place = ground (arith, h) }
CallStep-BoundsOk b (not_some_left p e h) ok = record { buffer = ok.buffer; place = tt }
CallStep-BoundsOk b (sizes_move p e) ok =
    let h = bounds_at ok e in
    let l = ok.buffer.bound in
    record { buffer = ok.buffer; place = (omega (arith, h, l), omega (arith, h)) }
CallStep-BoundsOk b {s} (moves p n e) ok =
    let (h, k) = bounds_at ok e in record { buffer = moves-RxOk p n s.rx ok.buffer h; place = k }
CallStep-BoundsOk b (loads_len p e) ok = record {
  buffer = ok.buffer;
  place = (bounds_at ok e, ok.buffer.bound);
}
CallStep-BoundsOk b (stores_len p l e) ok =
    let (h, k) = bounds_at ok e in
    record { buffer = record { size = ok.buffer.size; bound = omega (arith, h, k) }; place = tt }
CallStep-BoundsOk b (all_read p e h) ok = record { buffer = ok.buffer; place = tt }
CallStep-BoundsOk b (not_all_read p e h) ok = record { buffer = ok.buffer; place = tt }
CallStep-BoundsOk b (empties e) ok = record {
  buffer = record { size = ok.buffer.size; bound = omega arith };
  place = tt;
}

RaceStep-BoundsOk :
    {F : Type 0} (b : Board F) {s t : Race F} → RaceStep b s t → BoundsOk s → BoundsOk t
RaceStep-BoundsOk b (calls e) ok = record { buffer = ok.buffer; place = tt }
RaceStep-BoundsOk b (code st) ok = CallStep-BoundsOk b st ok
RaceStep-BoundsOk b {s} (irq e h) ok =
    let more = uart_cb_grows e s.rx h ok.buffer in
    record {
      buffer = uart_cb-RxOk e s.rx h ok.buffer;
      place = irq-InBounds s.pc s.rx (uart_cb e s.rx).0 (omega (arith, more)) ok.place;
    }
RaceStep-BoundsOk b {s} (stores buf h) ok = record {
  buffer = record { size = h ∙ ok.buffer.size; bound = ok.buffer.bound };
  place = irq-InBounds s.pc s.rx (record (s.rx) { rx_buf = buf }) (omega arith) ok.place;
}

RaceRun-BoundsOk :
    {F : Type 0} (b : Board F) {s t : Race F} → BoundsOk s → RaceRun b s t → BoundsOk t
RaceRun-BoundsOk b ok here = ok
RaceRun-BoundsOk b ok (next r st) = RaceStep-BoundsOk b st (RaceRun-BoundsOk b ok r)

-- From between two calls of `ota_process_rx`, with the buffer in bounds, through any number of calls, with
-- interrupts and stores of the UART driver into the buffer between any two accesses: the buffer keeps its size, `rx_len` stays within it, `processed` is
-- below `rx_len` wherever a frame is parsed, and the bytes that a memmove moves lie in the buffer.
pub race-InBounds :
    {F : Type 0} (b : Board F) (s t : Race F)
    → RxOk s.rx
    → s.pc ≡ resting
    → RaceRun b s t
    → RxOk t.rx × InBounds t.pc t.rx
race-InBounds b s t ok e r =
    let start : InBounds s.pc s.rx = subst (λ pc. InBounds pc s.rx) (sym e) tt in
    let end = RaceRun-BoundsOk b (record { buffer = ok; place = start }) r in
    (end.buffer, end.place)
