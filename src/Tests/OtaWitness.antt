-- ===== src/Tests/OtaWitness.antt =====
-- The theorems on sessions, handlers and frames at concrete inputs.
use zephyr_stm32h.Common.{
  ℕ, ◌+◌, ◌≡◌, refl, inl, true, List, [], ◌∷◌, ◌++◌, arith, take, drop, replicate, length-replicate,
  bytes32,
}
use zephyr_stm32h.Ota.Wire.{wire_header, response_wire}
use zephyr_stm32h.Ota.World.{World, uart_tx, response_bytes}
use zephyr_stm32h.Ota.Laws.{cells}
use zephyr_stm32h.Ota.Image.{ended, checked, answer, upload_verified}
use zephyr_stm32h.Ota.Upload.{Received, chunk_data, start_upgrade-Received, transfer_data-Received}
use zephyr_stm32h.Ota.Answers.{Answered, frame_process-Answered}
use zephyr_stm32h.Ota.Gate.{Gated, frame_process-Gated}
use zephyr_stm32h.Ota.Dispatch.{ota_frame_process}
use zephyr_stm32h.Ota.Handler.Transfer.{
  ota_cmd_start_upgrade, ota_cmd_transfer_data, ota_cmd_transfer_done,
}
use zephyr_stm32h.Ota.Handler.Verify.{crc_of, verify_loop, ota_cmd_verify_firmware}
use zephyr_stm32h.Ota.Handler.Verify.Loop.{verify_loop-crc}
use zephyr_stm32h.Tests.Toy.{
  frame_of, Flash, cell, toy_board, toy-CrcLaws, toy-FlashLaws, toy-IsReliable, sum_from, old_frame,
  fresh,
}

abbrev two_chunks : List (List ℕ)
two_chunks = (1 ∷ 2 ∷ 3 ∷ []) ∷ (4 ∷ 5 ∷ []) ∷ []

-- Five bytes in two chunks, with the right checksum.
upload_verified_example :
    (cells cell (checked toy_board fresh 7 two_chunks 15).slot1 0 5 ≡ 1 ∷ 2 ∷ 3 ∷ 4 ∷ 5 ∷ [])
    × ((checked toy_board fresh 7 two_chunks 15).effects
        ≡ uart_tx
            (response_bytes (ended toy_board fresh 7 two_chunks 15).stack 7 6 (answer 15 15) 5)
          ∷ (ended toy_board fresh 7 two_chunks 15).effects)
upload_verified_example =
    upload_verified toy-CrcLaws (toy-FlashLaws 8) (toy-IsReliable 8) fresh 7 two_chunks 15
      (inl refl) refl (omega arith) (omega arith) (omega arith) (omega arith)

-- An unknown command.
frame_process-Answered_example :
    Answered old_frame 7 0x55 [] (ota_frame_process toy_board fresh (frame_of 0x55 [])).effects
frame_process-Answered_example =
    frame_process-Answered toy_board fresh (frame_of 0x55 []) (inl refl)

frame_process-Gated_example :
    Gated 7 fresh (ota_frame_process toy_board fresh (frame_of 7 (0 ∷ 0 ∷ [])))
frame_process-Gated_example = frame_process-Gated toy_board fresh (frame_of 7 (0 ∷ 0 ∷ []))

-- START_UPGRADE for five bytes.
abbrev begun : World Flash
begun = ota_cmd_start_upgrade toy_board fresh 7 (bytes32 5 ++ (bytes32 15 ++ bytes32 0)) 12

begun_received :
    Received toy_board cell 8 begun []
    × (begun.ota.firmware_size ≡ 5)
    × (begun.ota.firmware_crc ≡ 15)
begun_received =
    start_upgrade-Received toy-CrcLaws (toy-FlashLaws 8) fresh 7
      (bytes32 5 ++ (bytes32 15 ++ bytes32 0)) 12 (omega arith) (inl refl) refl (omega arith)
      (omega arith) refl

abbrev first_chunk : World Flash
first_chunk = ota_cmd_transfer_data toy_board begun 8 (chunk_data 0 (1 ∷ 2 ∷ 3 ∷ []) []) 7

transfer_data-Received_example :
    Received toy_board cell 8 first_chunk (1 ∷ 2 ∷ 3 ∷ [])
    × (first_chunk.ota.firmware_size ≡ begun.ota.firmware_size)
transfer_data-Received_example =
    transfer_data-Received toy-CrcLaws (toy-FlashLaws 8) begun 8 [] (1 ∷ 2 ∷ 3 ∷ []) []
      begun_received.0 (omega arith) (let size = begun_received.1 in omega (arith, size)) refl

verify_loop-crc_example :
    verify_loop toy_board 4 (λ i. i + 1) 0 2 3 ≡ crc_of (sum_from 0 (cells cell (λ i. i + 1) 2 3))
verify_loop-crc_example =
    verify_loop-crc toy-CrcLaws (toy-FlashLaws 8) 4 (λ i. i + 1) 0 2 3 (omega arith) (omega arith)
      (omega arith) (λ at n h. refl)

response_wire_example :
    response_bytes old_frame 7 9 (1 ∷ 2 ∷ []) 2
    ≡ wire_header 7 0x20 0 1 0 9 2 ++ (1 ∷ 2 ∷ take 4 (drop 2 (replicate 65535 0x55)))
response_wire_example =
    response_wire old_frame 7 9 2 (1 ∷ 2 ∷ []) (length-replicate 65535 0x55) (omega arith)
      (omega arith)

abbrev checked_once : World Flash
checked_once = ota_cmd_verify_firmware toy_board fresh 7 [] 0

-- An upload in progress that has failed before its third byte.
abbrev failed : World Flash
failed = record fresh {
  ota = record (fresh.ota) {
    status = 0xff;
    received_size = 2;
    firmware_size = 5;
    in_progress = true;
  };
}

abbrev called_done : World Flash
called_done = ota_cmd_transfer_done toy_board failed 7 (bytes32 99 ++ bytes32 2) 8
