-- ===== src/Ota/Session.antt =====
-- What holds of `ota_state` between two commands (app90_ota/src/ota_handler.c).
use zephyr_stm32h.Common.{
  ℕ, suc, ◌+◌, ◌^◌, ◌≤◌, ◌≡◌, refl, ◌⊎◌, inl, inr, true, false, List, [], arith, ◌==◌, Bool-cases,
}
use zephyr_stm32h.Ota.Frame.{Frame}
use zephyr_stm32h.Ota.World.{
  OtaState, World, Board, ota_send_response, status_idle, status_receiving, status_verifying,
  status_complete, status_error,
}
use zephyr_stm32h.Ota.Handler.Control.{
  ota_cmd_handshake, ota_cmd_get_dev_info, ota_cmd_reset_run, ota_cmd_cancel_upgrade,
  ota_cmd_query_status, ota_cmd_set_boot_flag,
}
use zephyr_stm32h.Ota.Handler.Transfer.{
  ota_cmd_start_upgrade, ota_cmd_transfer_data, ota_cmd_transfer_done,
}
use zephyr_stm32h.Ota.Handler.Verify.{
  Checked, crc_of, read_failed, out_of_fuel, verdict, verify_loop, ota_cmd_verify_firmware,
}
use zephyr_stm32h.Ota.Dispatch.{ota_frame_process}
use zephyr_stm32h.Ota.Dispatch.Rule.{frame_process_rule}

-- The status bytes that a command can find; STATUS_ERASING is left before the handler returns.
abbrev pub IsRest : ℕ → Type 0
IsRest s =
    (s ≡ status_idle)
    ⊎ (s ≡ status_receiving)
    ⊎ (s ≡ status_verifying)
    ⊎ (s ≡ status_complete)
    ⊎ (s ≡ status_error)

-- The slot is small enough for an offset plus a frame's payload to fit 32 bits.
pub record SessionOk (s : OtaState) : Type 0 where
  pub rest : IsRest s.status
  pub slot_fits : s.slot_size + 65536 ≤ 2 ^ 32
  pub idle_stops : s.status ≡ status_idle → s.in_progress ≡ false
  pub receiving_runs : s.status ≡ status_receiving → s.in_progress ≡ true
  pub receiving_bounds :
      s.status ≡ status_receiving
      → (s.current_offset ≡ s.received_size)
        × (s.received_size ≤ s.firmware_size)
        × (s.firmware_size ≤ s.slot_size)
  pub complete_size : s.status ≡ status_complete → s.in_progress ≡ true

module _ {F : Type 0} (b : Board F) (w : World F) (seq : ℕ) (payload : List ℕ) (len : ℕ) where
  start_upgrade-SessionOk :
      SessionOk w.ota → SessionOk (ota_cmd_start_upgrade b w seq payload len).ota
  unfolding ota_cmd_start_upgrade
  start_upgrade-SessionOk h = ground arith

  transfer_data-SessionOk :
      SessionOk w.ota → SessionOk (ota_cmd_transfer_data b w seq payload len).ota
  unfolding ota_cmd_transfer_data
  transfer_data-SessionOk h = ground arith

  transfer_done-SessionOk :
      SessionOk w.ota → SessionOk (ota_cmd_transfer_done b w seq payload len).ota
  unfolding ota_cmd_transfer_done
  transfer_done-SessionOk h = ground arith

module _ {F : Type 0} (w : World F) (seq : ℕ) where
  verdict-SessionOk :
      (c : Checked)
      → SessionOk w.ota
      → w.ota.status ≡ status_verifying
      → SessionOk (verdict w seq c).ota
  unfolding verdict
  verdict-SessionOk (crc_of crc) h e = ground arith
  verdict-SessionOk read_failed h e = ground arith
  verdict-SessionOk out_of_fuel h e = ground arith

module _ {F : Type 0} (b : Board F) (w : World F) (seq : ℕ) (payload : List ℕ) (len : ℕ) where
  verify_firmware-SessionOk :
      SessionOk w.ota → SessionOk (ota_cmd_verify_firmware b w seq payload len).ota
  verify_firmware-SessionOk h =
      let loop : Checked =
        verify_loop b (suc w.ota.firmware_size) w.slot1 (b.crc32_ieee []) 0 w.ota.firmware_size in
      let begun : World F = record w { ota = record (w.ota) { status = status_verifying } } in
      let verifying : SessionOk begun.ota = ground arith in
      let after = verdict-SessionOk begun seq loop verifying refl in
      elim (Bool-cases (w.ota.status == status_complete)) [
        | inl done ↦ unfold ota_cmd_verify_firmware in rw done after
        | inr other ↦ unfold ota_cmd_verify_firmware in rw other h
      ]

module _ {F : Type 0} (w : World F) (seq : ℕ) (payload : List ℕ) (len : ℕ) where
  reset_run-SessionOk : SessionOk w.ota → SessionOk (ota_cmd_reset_run w seq payload len).ota
  unfolding ota_cmd_reset_run
  reset_run-SessionOk h = ground arith

  cancel_upgrade-SessionOk :
      SessionOk w.ota → SessionOk (ota_cmd_cancel_upgrade w seq payload len).ota
  unfolding ota_cmd_cancel_upgrade
  cancel_upgrade-SessionOk h = ground arith

  set_boot_flag-SessionOk :
      SessionOk w.ota → SessionOk (ota_cmd_set_boot_flag w seq payload len).ota
  unfolding ota_cmd_set_boot_flag
  set_boot_flag-SessionOk h = ground arith

-- Every frame that arrives, whatever its command and contents, keeps the invariant of the session.
pub frame_process-SessionOk :
    {F : Type 0} (b : Board F) (w : World F) (frame : Frame)
    → SessionOk w.ota
    → SessionOk (ota_frame_process b w frame).ota
unfolding ota_send_response ota_cmd_handshake ota_cmd_get_dev_info ota_cmd_query_status
frame_process-SessionOk b w frame =
    frame_process_rule b (λ seq cmd v v'. SessionOk v.ota → SessionOk v'.ota) (λ v seq cmd h. h)
      (λ v seq cmd h. h)
      (
        (λ v seq bytes len h. h),
        (λ v seq bytes len h. h),
        start_upgrade-SessionOk b,
        transfer_data-SessionOk b,
        transfer_done-SessionOk b,
        verify_firmware-SessionOk b,
        reset_run-SessionOk,
        cancel_upgrade-SessionOk,
        (λ v seq bytes len h. h),
        set_boot_flag-SessionOk,
      )
      w frame
