-- ===== src/Ota/Rx/Loop.antt =====
-- The loop of `ota_process_rx`: it ends, stays in the buffer, and keeps what each frame keeps.
use zephyr_stm32h.Common.{
  ℕ, zero, suc, ◌+◌, ◌-◌, ◌≤◌, ◌<◌, ◌≡◌, refl, sym, ◌∙◌, inl, inr, true, List, arith, ltb, ◌==◌,
  Bool-cases, if_rule, length, drop, length-drop, get_or-drop, u16, le16,
}
use zephyr_stm32h.Ota.Frame.{Frame}
use zephyr_stm32h.Ota.World.{World, Board}
use zephyr_stm32h.Ota.Dispatch.{ota_frame_process}
use zephyr_stm32h.Ota.Parse.{Parsed, fault, reject, parsed, is_header, ota_frame_parse}
use zephyr_stm32h.Ota.Parse.Sound.{parse_accepts, parse_faults}
use zephyr_stm32h.Ota.Rx.{
  Rx, LoopEnd, Poll, after_frame, finish, process_parsed, process_loop, ota_process_rx,
}
use zephyr_stm32h.Ota.Rx.Buffer.{RxOk, compact_rest}

-- The unread bytes hold a header whose length field is 65516 or more.
pub record HasWrapped (rx : Rx) : Type 0 where
  pub at : ℕ
  pub inside : at + 18 ≤ rx.rx_len
  pub here : is_header rx.rx_buf at ≡ true
  pub wraps : 65516 ≤ le16 rx.rx_buf (at + 14)

is_header-drop : (n i : ℕ) (buf : List ℕ) → is_header (drop n buf) i ≡ is_header buf (n + i)
unfolding is_header
is_header-drop n i buf =
    let e : n + (i + 1) ≡ n + i + 1 = omega arith in
    rw (get_or-drop n buf i 0, get_or-drop n buf (i + 1) 0, e)

le16-drop : (n i : ℕ) (buf : List ℕ) → le16 (drop n buf) i ≡ le16 buf (n + i)
le16-drop n i buf =
    let e : n + (i + 1) ≡ n + i + 1 = omega arith in
    rw (get_or-drop n buf i 0, get_or-drop n buf (i + 1) 0, e)

module _ {F : Type 0} (b : Board F) (P : World F → Type 0) (rx : Rx) where
  -- How the loop may end from a world with `P`.
  abbrev pub EndsWell : LoopEnd F → Type 0
  EndsWell (LoopEnd.done w processed) = P w × (processed ≤ rx.rx_len)
  EndsWell (LoopEnd.rebooting w) = P w
  EndsWell LoopEnd.faulted = HasWrapped rx
  EndsWell LoopEnd.out_of_fuel = ⊥

  after_frame_ends :
      (w : World F) (next : LoopEnd F) → P w → EndsWell next → EndsWell (after_frame w next)
  after_frame_ends w next p h = if_rule EndsWell w.rebooted p h

  module _ (ok : RxOk rx)
      (keeps : (w : World F) (frame : Frame) → P w → P (ota_frame_process b w frame)) where
    parsed_ends :
        (r : Parsed) (w : World F) (processed : ℕ) (next : World F → ℕ → LoopEnd F)
        → ota_frame_parse (drop processed rx.rx_buf) (u16 (rx.rx_len - processed)) w.stack ≡ r
        → processed < rx.rx_len
        → P w
        → ((v : World F) (at : ℕ) → P v → processed < at → at ≤ rx.rx_len → EndsWell (next v at))
        → EndsWell (process_parsed b w processed next r)
    unfolding process_parsed
    parsed_ends fault w processed next e h p k =
        let len : u16 (rx.rx_len - processed) ≡ rx.rx_len - processed = omega (arith, ok.bound) in
        let fits : u16 (rx.rx_len - processed) ≤ length (drop processed rx.rx_buf) =
          omega (arith, length-drop processed rx.rx_buf, ok.size, ok.bound) in
        let (pos, first, wraps) =
          parse_faults (drop processed rx.rx_buf) _ w.stack (omega arith) e fits in
        let shift : processed + (pos + 14) ≡ processed + pos + 14 = omega arith in
        record {
          at = processed + pos;
          inside = omega (arith, first.room);
          here = sym (is_header-drop processed pos rx.rx_buf) ∙ first.here;
          wraps = rw (← shift) (rw (le16-drop processed (pos + 14) rx.rx_buf) at wraps);
        }
    parsed_ends reject w processed next e h p k = (p, omega arith)
    parsed_ends (parsed n g) w processed next e h p k =
        let (pos, first, _, _, inside, _) =
          parse_accepts (drop processed rx.rx_buf) (u16 (rx.rx_len - processed)) n w.stack g
            (omega arith) e in
        elim (Bool-cases (n == 0)) [
          | inl none_read ↦ rw none_read (p, omega arith)
          | inr some_read ↦
              (let low : processed < u16 (processed + n) = ground (arith, ok.bound) in
                let high : u16 (processed + n) ≤ rx.rx_len = ground (arith, ok.bound) in
                let v = ota_frame_process b w g in
                let q = keeps w g p in
                rw some_read (after_frame_ends v _ q (k v (u16 (processed + n)) q low high)))
        ]

    pub process_loop_ends :
        (fuel : ℕ) (w : World F) (processed : ℕ)
        → processed ≤ rx.rx_len
        → rx.rx_len < fuel + processed
        → P w
        → EndsWell (process_loop b fuel w rx processed)
    unfolding process_loop
    process_loop_ends zero w processed h hf p = absurd (omega arith)
    process_loop_ends (suc fuel) w processed h hf p = elim (Bool-cases (ltb processed rx.rx_len)) [
      | inl more ↦ rw more (
          parsed_ends _ w processed (λ v at. process_loop b fuel v rx at) refl (ground arith) p
            (λ v at q lo hi. process_loop_ends fuel v at hi (omega arith) q))
      | inr all ↦ rw all (p, h)
    ]

-- How a call of `ota_process_rx` may end from a world with `P`.
abbrev pub PollsWell : {F : Type 0} → (World F → Type 0) → Rx → Poll F → Type 0
PollsWell P rx (Poll.polled w rx') = P w × RxOk rx' × (rx'.rx_len ≤ rx.rx_len)
PollsWell P rx (Poll.rebooting w) = P w
PollsWell P rx Poll.faulted = HasWrapped rx
PollsWell P rx Poll.out_of_fuel = ⊥

-- A call of `ota_process_rx` ends: its loop has fuel enough. If it returns, the buffer is in bounds
-- and holds no more than before; whatever every frame keeps is kept, also when a command reboots; and
-- it reads outside of the buffer only if the unread bytes hold a header whose length field is 65516
-- or more.
pub process_rx_ends :
    {F : Type 0} (b : Board F) (P : World F → Type 0) (w : World F) (rx : Rx)
    → RxOk rx
    → ((v : World F) (frame : Frame) → P v → P (ota_frame_process b v frame))
    → P w
    → PollsWell P rx (ota_process_rx b w rx)
unfolding ota_process_rx
process_rx_ends {F} b P w rx ok keeps p =
    go (process_loop b (suc rx.rx_len) w rx 0)
      (process_loop_ends b P rx ok keeps (suc rx.rx_len) w 0 (omega arith) (omega arith) p)
  where
    go : (end : LoopEnd F) → EndsWell b P rx end → PollsWell P rx (finish rx end)
    go (LoopEnd.done v processed) h =
        let (valid, left, _) = compact_rest rx processed ok h.1 in (h.0, valid, omega arith)
    go (LoopEnd.rebooting v) h = h
    go LoopEnd.faulted h = h
    go LoopEnd.out_of_fuel h = h
