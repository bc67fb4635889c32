-- ===== src/Ota/Handler/Verify.antt =====
-- ota_cmd_verify_firmware of ota_handler.c.
pub mod Loop
use zephyr_stm32h.Common.{
  ℕ, zero, suc, ◌+◌, ◌-◌, List, [], ◌∷◌, take, ltb, ◌==◌, if◌then◌else◌, is_err, u32, bytes32, not,
}
use zephyr_stm32h.Ota.World.{
  World, Board, ota_send_response, status_verifying, status_complete, status_error, err_flash_write,
  err_crc_mismatch,
}
use zephyr_stm32h.Ota.Handler.Transfer.{fail5}

abbrev pub cmd_verify_firmware : ℕ
cmd_verify_firmware = 0x0006

-- How the loop over the slot ends: with the CRC, at a read that failed, or without fuel.
pub data Checked : Type 0 where
  crc_of : ℕ → Checked
  read_failed : Checked
  out_of_fuel : Checked

-- sizeof(buf), or what remains.
abbrev pub chunk_of : ℕ → ℕ
chunk_of remaining = if ltb 256 remaining then 256 else remaining

module _ {F : Type 0} where
  -- The end of the handler.
  unfoldable pub verdict : World F → ℕ → Checked → World F
  unfolding ota_send_response
  verdict w seq (crc_of crc) =
      let w' = record w { ota = record (w.ota) { calculated_crc = crc } } in
      if crc == w.ota.firmware_crc
      then ota_send_response w' seq cmd_verify_firmware (0x00 ∷ bytes32 crc) 5
      else ota_send_response (record w' { ota = record (w'.ota) { error_code = err_crc_mismatch } })
          seq cmd_verify_firmware (0x01 ∷ bytes32 crc) 5
  verdict w seq read_failed =
      ota_send_response
        (record w { ota = record (w.ota) { status = status_error; error_code = err_flash_write } })
        seq cmd_verify_firmware fail5 5
  verdict w seq out_of_fuel = w

module _ {F : Type 0} (b : Board F) where
  -- `while (remaining > 0)`.
  unfoldable pub verify_loop : ℕ → F → ℕ → ℕ → ℕ → Checked
  verify_loop zero slot1 crc offset remaining = out_of_fuel
  verify_loop (suc fuel) slot1 crc offset remaining =
      let chunk = chunk_of remaining in
      let (err, buf) = b.flash_area_read slot1 offset chunk in
      let rest =
        verify_loop fuel slot1 (b.crc32_ieee_update crc (take chunk buf)) (u32 (offset + chunk))
          (remaining - chunk) in
      if remaining == 0 then crc_of crc else if is_err err then read_failed else rest

  -- Each round takes a byte at least, so `firmware_size + 1` rounds are enough.
  unfoldable pub ota_cmd_verify_firmware : World F → ℕ → List ℕ → ℕ → World F
  unfolding verdict
  ota_cmd_verify_firmware w seq payload len =
      if not (w.ota.status == status_complete)
      then ota_send_response w seq cmd_verify_firmware fail5 5
      else verdict (record w { ota = record (w.ota) { status = status_verifying } }) seq
          (verify_loop (suc w.ota.firmware_size) w.slot1 (b.crc32_ieee []) 0 w.ota.firmware_size)
