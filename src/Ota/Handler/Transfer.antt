-- ===== src/Ota/Handler/Transfer.antt =====
-- ota_cmd_start_upgrade, ota_cmd_transfer_data and ota_cmd_transfer_done of ota_handler.c.
use zephyr_stm32h.Common.{
  ℕ, ◌+◌, ◌-◌, true, false, not, ◌&&◌, ◌||◌, List, [], ◌∷◌, ◌++◌, take, drop, ltb, ◌==◌,
  if◌then◌else◌, is_err, u16, u32, le32, bytes16, bytes32,
}
use zephyr_stm32h.Ota.World.{
  World, Board, ota_send_response, status_idle, status_erasing, status_receiving, status_complete,
  status_error, err_firmware_size, err_flash_erase, err_flash_write, err_offset_error,
  max_packet_size,
}

abbrev pub cmd_start_upgrade : ℕ
cmd_start_upgrade = 0x0003

abbrev pub cmd_transfer_data : ℕ
cmd_transfer_data = 0x0004

abbrev pub cmd_transfer_done : ℕ
cmd_transfer_done = 0x0005

abbrev pub fail4 : List ℕ
fail4 = 0xff ∷ 0xff ∷ 0xff ∷ 0xff ∷ []

abbrev pub fail5 : List ℕ
fail5 = 0xff ∷ fail4

module _ {F : Type 0} (b : Board F) where
  -- From STATUS_ERASING on: the erase of the whole slot, and its two outcomes.
  unfoldable pub erase_slot : World F → ℕ → World F
  unfolding ota_send_response
  erase_slot w seq =
      let (err, slot1') = b.flash_area_erase w.slot1 0 w.ota.slot_size in
      if is_err err
      then ota_send_response
          (record w {
            slot1 = slot1';
            ota = record (w.ota) {
              status = status_idle;
              error_code = err_flash_erase;
              in_progress = false;
            };
          })
          seq cmd_start_upgrade fail4 4
      else ota_send_response
          (record w { slot1 = slot1'; ota = record (w.ota) { status = status_receiving } }) seq
          cmd_start_upgrade ((0x00 ∷ bytes16 max_packet_size) ++ (100 ∷ [])) 4

  unfoldable pub ota_cmd_start_upgrade : World F → ℕ → List ℕ → ℕ → World F
  unfolding erase_slot
  ota_cmd_start_upgrade w seq payload len =
      if ltb len 12
      then ota_send_response w seq cmd_start_upgrade fail4 4
      else if not (w.ota.status == status_idle) && not (w.ota.status == status_complete)
      then ota_send_response w seq cmd_start_upgrade fail4 4
      else if ltb w.ota.slot_size (le32 payload 0)
      then ota_send_response
          (record w {
            ota = record (w.ota) {
              firmware_size = le32 payload 0;
              firmware_crc = le32 payload 4;
              error_code = err_firmware_size;
            };
          })
          seq cmd_start_upgrade fail4 4
      else erase_slot
          (record w {
            ota = record (w.ota) {
              firmware_size = le32 payload 0;
              firmware_crc = le32 payload 4;
              status = status_erasing;
              received_size = 0;
              current_offset = 0;
              in_progress = true;
              calculated_crc = 0;
            };
          })
          seq

  -- STATUS_ERROR with an error code, and the response that goes with it.
  unfoldable pub transfer_error : World F → ℕ → ℕ → ℕ → List ℕ → World F
  unfolding ota_send_response
  transfer_error w seq cmd code resp =
      ota_send_response
        (record w { ota = record (w.ota) { error_code = code; status = status_error } }) seq cmd
        resp 5

  -- The write to flash at `offset`, and its two outcomes.
  unfoldable pub write_chunk : World F → ℕ → ℕ → List ℕ → ℕ → World F
  unfolding transfer_error ota_send_response
  write_chunk w seq offset fw_data fw_len =
      let (err, slot1') = b.flash_area_write w.slot1 offset fw_data in
      let w' = record w { slot1 = slot1' } in
      if is_err err
      then transfer_error w' seq cmd_transfer_data err_flash_write fail5
      else (let ota' = record (w.ota) {
        calculated_crc = b.crc32_ieee_update w.ota.calculated_crc fw_data;
        current_offset = u32 (w.ota.current_offset + fw_len);
        received_size = u32 (w.ota.received_size + fw_len);
      } in
          ota_send_response (record w' { ota = ota' }) seq cmd_transfer_data
            (0x00 ∷ bytes32 ota'.received_size) 5)

  unfoldable pub ota_cmd_transfer_data : World F → ℕ → List ℕ → ℕ → World F
  unfolding write_chunk
  ota_cmd_transfer_data w seq payload len =
      if not w.ota.in_progress || not (w.ota.status == status_receiving)
      then ota_send_response w seq cmd_transfer_data fail5 5
      else if ltb len 4
      then ota_send_response w seq cmd_transfer_data fail5 5
      else (let offset = le32 payload 0 in
          let fw_len = u16 (len - 4) in
          if not (offset == w.ota.current_offset)
          then transfer_error w seq cmd_transfer_data err_offset_error (0x01 ∷ fail4)
          else if ltb w.ota.firmware_size (u32 (offset + fw_len))
          then transfer_error w seq cmd_transfer_data err_firmware_size fail5
          else write_chunk w seq offset (take fw_len (drop 4 payload)) fw_len)

  -- The first eight bytes of `data` are read whatever `len` is.
  unfoldable pub ota_cmd_transfer_done : World F → ℕ → List ℕ → ℕ → World F
  unfolding transfer_error
  ota_cmd_transfer_done w seq payload len =
      if not w.ota.in_progress
      then ota_send_response w seq cmd_transfer_done fail5 5
      else (let declared_crc = le32 payload 0 in
          let declared_size = le32 payload 4 in
          if not (declared_size == w.ota.received_size)
          then transfer_error w seq cmd_transfer_done err_firmware_size fail5
          else ota_send_response
              (record w {
                ota = record (w.ota) {
                  firmware_size = declared_size;
                  firmware_crc = declared_crc;
                  status = status_complete;
                };
              })
              seq cmd_transfer_done (0x00 ∷ bytes32 w.ota.received_size) 5)
