-- ===== src/UartDma/Buffers.antt =====
-- The driver never gets the buffer that it fills.
use zephyr_stm32h.Common.{
  ℕ, zero, suc, ◌≡◌, refl, sym, subst, ◌∙◌, ◌⊎◌, inl, inr, false, true≢false, not, some, arith,
  ◌==◌, if◌then◌else◌, Bool-cases, is_err, ℤ, pos, negsuc,
}
use zephyr_stm32h.UartDma.{
  UartEvent, uart_rx_buf_request, uart_rx_rdy, uart_rx_buf_released, uart_rx_disabled, uart_tx_done,
  uart_tx_aborted, UartApi, RxState, stopped, fills, fills_then, RxMove, asks, reports, goes_on,
  runs_out, stops, sent, aborted, UartLaws, Uart, uart_cb, main, UartStep, calls_back,
}
use mathlib.Core.Option.{some-injective, some-ne-none}

pub data UartRun {D : Type 0} (api : UartApi D) (Drive : D → UartEvent → D → Type 0) (s : Uart D)
    : Uart D → Type 0 where
  here : UartRun api Drive s s
  next : {t u : Uart D} → UartRun api Drive s t → UartStep api Drive t u → UartRun api Drive s u

-- The two buffers, one each.
abbrev pub AreBoth : ℕ → ℕ → Type 0
AreBoth a b = ((a ≡ 0) × (b ≡ 1)) ⊎ ((a ≡ 1) × (b ≡ 0))

-- The next buffer to be given is not in the driver's hands, or both are and it is the one that is filled.
abbrev pub BuffersOk : RxState → ℕ → Type 0
BuffersOk stopped idx = Unit {0}
BuffersOk (fills f) idx = AreBoth f idx
BuffersOk (fills_then f w) idx = AreBoth f w × (idx ≡ f)

RxMove-BuffersOk :
    {r r' : RxState} {e : UartEvent} (idx : ℕ) → RxMove r e r' → BuffersOk r idx → BuffersOk r' idx
RxMove-BuffersOk idx (asks f) h = h
RxMove-BuffersOk idx (reports r d) h = h
RxMove-BuffersOk idx (goes_on f w) (inl (a, b), i) = inr (b, i ∙ a)
RxMove-BuffersOk idx (goes_on f w) (inr (a, b), i) = inl (b, i ∙ a)
RxMove-BuffersOk idx (runs_out f) h = tt
RxMove-BuffersOk idx (stops r) h = tt
RxMove-BuffersOk idx (sent r) h = h
RxMove-BuffersOk idx (aborted r) h = h

asks_fills : {r r' : RxState} → RxMove r uart_rx_buf_request r' → (f : ℕ) × (r' ≡ fills f)
asks_fills (asks f) = (f, refl)

-- The other buffer is given, and the filled one is next.
given : (f idx : ℕ) → AreBoth f idx → BuffersOk (fills_then f idx) (if idx == 0 then 1 else 0)
given f idx (inl (a, b)) = (inl (a, b), ground (arith, a, b))
given f idx (inr (a, b)) = (inr (a, b), ground (arith, a, b))

no_err : (z : ℤ) → is_err z ≡ false → z ≡ pos 0
no_err (pos zero) h = refl
no_err (pos (suc n)) h = absurd (true≢false h)
no_err (negsuc n) h = absurd (true≢false h)

module _ {D : Type 0} {api : UartApi D} {Drive : D → UartEvent → D → Type 0} {rx : D → RxState}
    (laws : UartLaws api Drive rx) where
  abbrev pub UartOk : Uart D → Type 0
  UartOk s = BuffersOk (rx s.uart) s.rx_buf_idx

  uart_cb-UartOk :
      (s : Uart D) (e : UartEvent) (d : D)
      → RxMove (rx s.uart) e (rx d)
      → UartOk s
      → UartOk (uart_cb api e (record s { uart = d }))
  uart_cb-UartOk s uart_rx_buf_request d mv h =
      let (f, e) = asks_fills mv in
      let both = subst (λ r. BuffersOk r s.rx_buf_idx) e (RxMove-BuffersOk s.rx_buf_idx mv h) in
      subst (λ r. BuffersOk r (if s.rx_buf_idx == 0 then 1 else 0))
        (sym (laws.rsp_accepted d f s.rx_buf_idx e)) (given f s.rx_buf_idx both)
  uart_cb-UartOk s (uart_rx_rdy p) d mv h =
      subst (λ r. BuffersOk r s.rx_buf_idx) (sym (laws.tx_keeps d p))
        (RxMove-BuffersOk s.rx_buf_idx mv h)
  uart_cb-UartOk s (uart_rx_buf_released b) d mv h = RxMove-BuffersOk s.rx_buf_idx mv h
  uart_cb-UartOk s uart_rx_disabled d mv h = RxMove-BuffersOk s.rx_buf_idx mv h
  uart_cb-UartOk s uart_tx_done d mv h = RxMove-BuffersOk s.rx_buf_idx mv h
  uart_cb-UartOk s uart_tx_aborted d mv h = RxMove-BuffersOk s.rx_buf_idx mv h

  UartRun-UartOk : {s t : Uart D} → UartOk s → UartRun api Drive s t → UartOk t
  UartRun-UartOk h here = h
  UartRun-UartOk h (next {t} r (calls_back e d drive)) =
      uart_cb-UartOk t e d (laws.moves t.uart d e drive) (UartRun-UartOk h r)

  main-UartOk : (s t : Uart D) → main api s ≡ some t → UartOk t
  main-UartOk s t started =
      let d = (api.uart_callback_set s.uart).1 in
      let run : Uart D = record { uart = (api.uart_rx_enable d 0).1; rx_buf_idx = 1 } in
      elim (Bool-cases (not (api.device_is_ready s.uart))) [
        | inl a ↦ absurd (some-ne-none t (sym (rw a at started)))
        | inr a ↦ elim (Bool-cases (is_err (api.uart_callback_set s.uart).0)) [
          | inl b ↦ absurd (some-ne-none t (sym (rw (a, b) at started)))
          | inr b ↦ elim (Bool-cases (is_err (api.uart_rx_enable d 0).0)) [
            | inl c ↦ absurd (some-ne-none t (sym (rw (a, b, c) at started)))
            | inr c ↦
                let same : run ≡ t = some-injective run t (rw (a, b, c) at started) in
                subst UartOk same (
                  subst (λ r. BuffersOk r 1) (sym (laws.enable_starts d 0 (no_err _ c)))
                    (inl (refl, refl)))
          ]
        ]
      ]

  -- After `main` has started reception, and after any events: while the driver has only the buffer that it
  -- fills, the one that the next request will be given is the other of the two; and while it has one for
  -- later as well, it has both, one each. So it is never given the buffer that it fills.
  pub buffers_alternate :
      (s t u : Uart D)
      → main api s ≡ some t
      → UartRun api Drive t u
      → BuffersOk (rx u.uart) u.rx_buf_idx
  buffers_alternate s t u started r = UartRun-UartOk (main-UartOk s t started) r
