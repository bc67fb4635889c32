-- ===== src/Ota/Rx/Buffer.antt =====
-- The receive buffer stays within its 4096 bytes, and what is not consumed stays in order.
use zephyr_stm32h.Common.{
  ℕ, ◌+◌, ◌-◌, ◌≤◌, ◌<◌, ◌≡◌, refl, ap, ◌∙◌, inl, inr, true, false, ◌&&◌, List, ◌++◌, arith, ltb,
  leb, le→leb, Bool-cases, length, take, drop, length-append, length-take, length-drop,
  take-append_left, take-append_right, take_all, u16,
}
use zephyr_stm32h.Ota.Rx.{Rx, rx_buf_size, UartEvent, rx_rdy, uart_cb, write_at, compact}

pub record RxOk (rx : Rx) : Type 0 where
  pub size : length rx.rx_buf ≡ rx_buf_size
  pub bound : rx.rx_len ≤ rx_buf_size

-- What the driver promises of an event: the received bytes lie in its buffer.
abbrev pub EventOk : UartEvent → Type 0
EventOk (rx_rdy buf offset len) = offset + len ≤ length buf
EventOk _ = Unit {0}

pub length-write_at :
    (buf src : List ℕ) (at n : ℕ)
    → at + n ≤ length buf
    → n ≤ length src
    → length (write_at buf at src n) ≡ length buf
unfolding write_at
length-write_at buf src at n hb hs = omega (
  arith,
  length-append (take at buf) (take n src ++ drop (at + n) buf),
  length-append (take n src) (drop (at + n) buf),
  length-take at buf,
  length-take n src,
  length-drop (at + n) buf,
)

-- Every UART event leaves the buffer and its fill level in bounds.
pub uart_cb-RxOk : (e : UartEvent) (rx : Rx) → EventOk e → RxOk rx → RxOk (uart_cb e rx).0
unfolding uart_cb
uart_cb-RxOk (rx_rdy buf offset len) rx h ok =
    ground (
      arith,
      length-write_at rx.rx_buf (drop offset buf) rx.rx_len (u16 len),
      length-drop offset buf,
    )
uart_cb-RxOk _ rx h ok = ok

-- If the new bytes fit the receive buffer and are fewer than 65536, what has been received before stays
-- in place, and behind it come the new bytes.
pub uart_cb-append :
    (buf : List ℕ) (offset len : ℕ) (rx : Rx)
    → RxOk rx
    → offset + len ≤ length buf
    → len < 65536
    → rx.rx_len + len ≤ rx_buf_size
    → let rx' = (uart_cb (rx_rdy buf offset len) rx).0 in
      (rx'.rx_len ≡ rx.rx_len + len)
      × (take rx'.rx_len rx'.rx_buf ≡ take rx.rx_len rx.rx_buf ++ take len (drop offset buf))
unfolding uart_cb write_at
uart_cb-append buf offset len rx ok hb hl fits =
    let e : u16 len ≡ len = omega arith in
    let k : u16 (rx.rx_len + len) ≡ rx.rx_len + len = omega arith in
    let old : List ℕ = take rx.rx_len rx.rx_buf in
    let new : List ℕ = take len (drop offset buf) in
    let hold : length old ≡ rx.rx_len = omega (arith, length-take rx.rx_len rx.rx_buf, ok.size) in
    let hnew : length new ≡ len =
      omega (arith, length-take len (drop offset buf), length-drop offset buf) in
    rw (e, le→leb _ _ fits, k)
      (
        refl,
        take-append_right (rx.rx_len + len) len old _ (omega arith)
            ∙ ap (λ l. old ++ l)
                (take-append_left len new _ (omega arith) ∙ take_all len new (omega arith)),
      )

-- After `processed` of the bytes of a buffer in bounds are consumed, it is in bounds, and the rest stands at the start of the buffer, in order.
pub compact_rest :
    (rx : Rx) (processed : ℕ)
    → RxOk rx
    → processed ≤ rx.rx_len
    → RxOk (compact rx processed)
      × ((compact rx processed).rx_len ≡ rx.rx_len - processed)
      × (take (rx.rx_len - processed) (compact rx processed).rx_buf
          ≡ take (rx.rx_len - processed) (drop processed rx.rx_buf))
unfolding compact
compact_rest rx processed ok h =
    let left : ℕ = rx.rx_len - processed in
    let moved : List ℕ = take left (drop processed rx.rx_buf) in
    let hm : length moved ≡ left = omega (
      arith,
      length-take left (drop processed rx.rx_buf),
      length-drop processed rx.rx_buf,
      ok.size,
      ok.bound,
    ) in
    let whole : length (moved ++ drop left rx.rx_buf) ≡ rx_buf_size = omega (
      arith,
      length-append moved (drop left rx.rx_buf),
      length-drop left rx.rx_buf,
      ok.size,
      ok.bound,
    ) in
    elim (Bool-cases (leb rx.rx_len processed)) [
      | inl all ↦
          (let t : (ltb 0 processed && ltb processed rx.rx_len) ≡ false = ground arith in
            let e : left ≡ 0 = ground arith in rw (t, all, e) (ok_empty, refl, refl))
      | inr part ↦ elim (Bool-cases (ltb 0 processed)) [
        | inl some_used ↦
            (let t : (ltb 0 processed && ltb processed rx.rx_len) ≡ true = ground arith in
              rw t (
                record { size = whole; bound = omega (arith, ok.bound) },
                refl,
                take-append_left left moved (drop left rx.rx_buf) (omega arith)
                    ∙ take_all left moved (omega arith),
              ))
        | inr none_used ↦
            (let t : (ltb 0 processed && ltb processed rx.rx_len) ≡ false = ground arith in
              let z : processed ≡ 0 = ground arith in
              let l : rx.rx_len - 0 ≡ rx.rx_len = omega arith in
              rw (t, part, z) (ok, omega arith, refl))
      ]
    ]
  where
    ok_empty : RxOk (record rx { rx_len = 0 })
    ok_empty = record { size = ok.size; bound = omega arith }
