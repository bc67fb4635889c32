-- ===== src/Ota/Gate.antt =====
-- What stands between the serial line and a reboot, the boot flag and slot 1.
use zephyr_stm32h.Common.{
  ℕ, suc, ◌≡◌, refl, ◌∙◌, ◌≢◌, ◌⊎◌, inl, inr, true, false, not, List, [], ◌∷◌, arith, ltb, ◌==◌,
  Bool-cases, if_rule, le32,
}
use zephyr_stm32h.Ota.Frame.{Frame}
use zephyr_stm32h.Ota.World.{
  World, Board, ota_send_response, status_idle, status_receiving, status_verifying, status_complete,
}
use zephyr_stm32h.Ota.Handler.Control.{
  cmd_reset_run, cmd_set_boot_flag, ota_cmd_handshake, ota_cmd_get_dev_info, ota_cmd_reset_run,
  ota_cmd_cancel_upgrade, ota_cmd_query_status, ota_cmd_set_boot_flag,
}
use zephyr_stm32h.Ota.Handler.Transfer.{
  cmd_start_upgrade, cmd_transfer_data, ota_cmd_start_upgrade, ota_cmd_transfer_data,
  ota_cmd_transfer_done,
}
use zephyr_stm32h.Ota.Handler.Verify.{
  Checked, crc_of, read_failed, out_of_fuel, verdict, verify_loop, ota_cmd_verify_firmware,
}
use zephyr_stm32h.Ota.Dispatch.{ota_frame_process}
use zephyr_stm32h.Ota.Dispatch.Rule.{frame_process_rule}

-- What a command may do to a world.
pub record Gated {F : Type 0} (cmd : ℕ) (w w' : World F) : Type 0 where
  -- A reboot comes from RESET_RUN in STATUS_COMPLETE.
  pub reboots :
      w.rebooted ≡ false
      → w'.rebooted ≡ true
      → (cmd ≡ cmd_reset_run) × (w.ota.status ≡ status_complete)
  -- The boot flag is set by SET_BOOT_FLAG in STATUS_COMPLETE.
  pub flags :
      w.ota.boot_flag ≡ 0
      → w'.ota.boot_flag ≢ 0
      → (cmd ≡ cmd_set_boot_flag) × (w.ota.status ≡ status_complete)
  -- Slot 1 is touched only by START_UPGRADE in STATUS_IDLE or STATUS_COMPLETE, and by TRANSFER_DATA
  -- in STATUS_RECEIVING.
  pub keeps_slot :
      (cmd ≢ cmd_start_upgrade) ⊎ ((w.ota.status ≢ status_idle) × (w.ota.status ≢ status_complete))
      → (cmd ≢ cmd_transfer_data) ⊎ (w.ota.status ≢ status_receiving)
      → w'.slot1 ≡ w.slot1

module _ {F : Type 0} where
  same-Gated :
      (cmd : ℕ) (w w' : World F)
      → w'.rebooted ≡ w.rebooted
      → w'.ota.boot_flag ≡ w.ota.boot_flag
      → w'.slot1 ≡ w.slot1
      → Gated cmd w w'
  same-Gated cmd w w' r f s = record {
    reboots = λ a c. cc;
    flags = λ a c. absurd (c (f ∙ a));
    keeps_slot = λ _ _. s;
  }

  verdict_keeps :
      (w : World F) (seq : ℕ) (c : Checked)
      → ((verdict w seq c).rebooted ≡ w.rebooted)
        × ((verdict w seq c).ota.boot_flag ≡ w.ota.boot_flag)
        × ((verdict w seq c).slot1 ≡ w.slot1)
  unfolding verdict
  verdict_keeps w seq (crc_of crc) = ground arith
  verdict_keeps w seq read_failed = (refl, refl, refl)
  verdict_keeps w seq out_of_fuel = (refl, refl, refl)

module _ {F : Type 0} (b : Board F) (w : World F) (seq : ℕ) (payload : List ℕ) (len : ℕ) where
  start_upgrade-Gated : Gated 3 w (ota_cmd_start_upgrade b w seq payload len)
  unfolding ota_cmd_start_upgrade
  start_upgrade-Gated = ground arith

  transfer_data-Gated : Gated 4 w (ota_cmd_transfer_data b w seq payload len)
  unfolding ota_cmd_transfer_data
  transfer_data-Gated = ground arith

  transfer_done-Gated : Gated 5 w (ota_cmd_transfer_done b w seq payload len)
  unfolding ota_cmd_transfer_done
  transfer_done-Gated = ground arith

  verify_firmware-Gated : Gated 6 w (ota_cmd_verify_firmware b w seq payload len)
  unfolding ota_cmd_verify_firmware
  verify_firmware-Gated =
      let begun : World F = record w { ota = record (w.ota) { status = status_verifying } } in
      let loop : Checked =
        verify_loop b (suc w.ota.firmware_size) w.slot1 (b.crc32_ieee []) 0 w.ota.firmware_size in
      let (r, f, s) = verdict_keeps begun seq loop in
      if_rule (Gated 6 w) (not (w.ota.status == status_complete)) (same-Gated 6 w _ refl refl refl)
        (same-Gated 6 w (verdict begun seq loop) r f s)

module _ {F : Type 0} (w : World F) (seq : ℕ) (payload : List ℕ) (len : ℕ) where
  reset_run-Gated : Gated 7 w (ota_cmd_reset_run w seq payload len)
  unfolding ota_cmd_reset_run
  reset_run-Gated = ground arith

  set_boot_flag-Gated : Gated 10 w (ota_cmd_set_boot_flag w seq payload len)
  unfolding ota_cmd_set_boot_flag
  set_boot_flag-Gated = ground arith

-- A frame reboots the device only as RESET_RUN in STATUS_COMPLETE, sets the boot flag only as
-- SET_BOOT_FLAG in STATUS_COMPLETE, and touches slot 1 only as START_UPGRADE in STATUS_IDLE or
-- STATUS_COMPLETE or as TRANSFER_DATA in STATUS_RECEIVING.
pub frame_process-Gated :
    {F : Type 0} (b : Board F) (w : World F) (frame : Frame)
    → Gated frame.cmd w (ota_frame_process b w frame)
unfolding ota_send_response ota_cmd_handshake ota_cmd_get_dev_info ota_cmd_cancel_upgrade
    ota_cmd_query_status
frame_process-Gated b w frame =
    frame_process_rule b (λ seq cmd v v'. Gated cmd v v')
      (λ v seq cmd. same-Gated cmd v v refl refl refl)
      (λ v seq cmd. same-Gated cmd v _ refl refl refl)
      (
        (λ v seq bytes len. same-Gated 1 v _ refl refl refl),
        (λ v seq bytes len. same-Gated 2 v _ refl refl refl),
        start_upgrade-Gated b,
        transfer_data-Gated b,
        transfer_done-Gated b,
        verify_firmware-Gated b,
        reset_run-Gated,
        (λ v seq bytes len. same-Gated 8 v _ refl refl refl),
        (λ v seq bytes len. same-Gated 9 v _ refl refl refl),
        set_boot_flag-Gated,
      )
      w frame

verdict_status :
    {F : Type 0} (w : World F) (seq : ℕ) (c : Checked)
    → w.ota.status ≡ status_verifying
    → (verdict w seq c).ota.status ≢ status_complete
unfolding verdict
verdict_status w seq (crc_of crc) e = ground arith
verdict_status w seq read_failed e = ground arith
verdict_status w seq out_of_fuel e = ground arith

verify_status :
    {F : Type 0} (b : Board F) (w : World F) (seq : ℕ) (payload : List ℕ) (len : ℕ)
    → (ota_cmd_verify_firmware b w seq payload len).ota.status ≢ status_complete
verify_status {F} b w seq payload len =
    let begun : World F = record w { ota = record (w.ota) { status = status_verifying } } in
    let loop : Checked =
      verify_loop b (suc w.ota.firmware_size) w.slot1 (b.crc32_ieee []) 0 w.ota.firmware_size in
    let after = verdict_status begun seq loop refl in
    elim (Bool-cases (w.ota.status == status_complete)) [
      | inl yes_complete ↦ unfold ota_cmd_verify_firmware in rw yes_complete after
      | inr not_complete ↦ unfold ota_cmd_verify_firmware in rw not_complete (λ e. ground arith)
    ]

-- After VERIFY_FIRMWARE, in whatever state it came and whatever its answer was, RESET_RUN is refused with 0xff and does nothing
-- else, and so is the SET_BOOT_FLAG that marks the new firmware.
pub verify_locks_out :
    {F : Type 0} (b : Board F) (w : World F) (seq seq' : ℕ) (payload arg rest : List ℕ) (len n : ℕ)
    → let w' = ota_cmd_verify_firmware b w seq payload len in
      (ota_cmd_reset_run w' seq' arg n ≡ ota_send_response w' seq' cmd_reset_run (0xff ∷ []) 1)
      × (ota_cmd_set_boot_flag w' seq' (1 ∷ rest) n
          ≡ ota_send_response w' seq' cmd_set_boot_flag (0xff ∷ []) 1)
unfolding ota_cmd_reset_run ota_cmd_set_boot_flag
verify_locks_out {F} b w seq seq' payload arg rest len n =
    let w' : World F = ota_cmd_verify_firmware b w seq payload len in
    let h = verify_status b w seq payload len in
    let t : (w'.ota.status == status_complete) ≡ false = ground arith in
    (
      rw t,
      rw t (
          if_rule (λ v. v ≡ ota_send_response w' seq' cmd_set_boot_flag (0xff ∷ []) 1) (ltb n 1)
            refl refl),
    )

-- While an upload is in progress, in any status and so after any error, a TRANSFER_DONE that declares
-- the number of bytes received completes it, whatever size was announced and whatever CRC is declared,
-- and a RESET_RUN behind it reboots the device. The slot is not read in between.
pub unverified_reboot :
    {F : Type 0} (b : Board F) (w : World F) (seq seq' : ℕ) (payload arg : List ℕ) (len n : ℕ)
    → w.ota.in_progress ≡ true
    → le32 payload 4 ≡ w.ota.received_size
    → let w' = ota_cmd_transfer_done b w seq payload len in
      (w'.ota.status ≡ status_complete)
      × (w'.ota.firmware_size ≡ w.ota.received_size)
      × ((ota_cmd_reset_run w' seq' arg n).rebooted ≡ true)
unfolding ota_cmd_transfer_done ota_cmd_reset_run
unverified_reboot b w seq seq' payload arg len n hp hd =
    let t : (le32 payload 4 == w.ota.received_size) ≡ true = ground arith in
    rw (hp, t) (refl, hd, refl)
