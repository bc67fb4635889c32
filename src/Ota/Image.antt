-- ===== src/Ota/Image.antt =====
-- A whole upload, as doc/pc_mcu.md of app90_ota draws it: START_UPGRADE, TRANSFER_DATA in order,
-- TRANSFER_DONE and VERIFY_FIRMWARE, run by the handlers of app90_ota/src/ota_handler.c.
use zephyr_stm32h.Common.{
  ℕ, suc, ◌+◌, ◌^◌, ◌≤◌, ◌<◌, ◌≡◌, refl, sym, ap, subst, ◌∙◌, ◌⊎◌, inl, inr, true, false, not, List,
  [], ◌∷◌, ◌++◌, append-nil, append_assoc, arith, ◌==◌, if◌then◌else◌, Bool-cases, length, get_or,
  All, length-append, is_err, le32, bytes32,
}
use zephyr_stm32h.Ota.World.{
  World, Board, uart_tx, response_bytes, status_idle, status_complete, status_verifying,
}
use zephyr_stm32h.Ota.Laws.{CrcLaws, FlashLaws, cells, cells_eq}
use zephyr_stm32h.Ota.Upload.{
  Received, chunk_data, start_upgrade-Received, transfer_data-Received, le32-bytes32,
}
use zephyr_stm32h.Ota.Handler.Transfer.{
  ota_cmd_start_upgrade, ota_cmd_transfer_data, ota_cmd_transfer_done,
}
use zephyr_stm32h.Ota.Handler.Verify.{
  crc_of, cmd_verify_firmware, verdict, verify_loop, ota_cmd_verify_firmware,
}
use zephyr_stm32h.Ota.Handler.Verify.Loop.{verify_loop-crc}

abbrev pub join : List (List ℕ) → List ℕ
join [] = []
join (c ∷ cs) = c ++ join cs

-- No call of the flash driver fails within the slot.
pub record IsReliable {F : Type 0} (b : Board F) (size : ℕ) : Type 0 where
  pub erases : (f : F) → is_err (b.flash_area_erase f 0 size).0 ≡ false
  pub writes :
      (f : F) (off : ℕ) (bs : List ℕ)
      → off + length bs ≤ size
      → is_err (b.flash_area_write f off bs).0 ≡ false
  pub reads : (f : F) (off n : ℕ) → off + n ≤ size → is_err (b.flash_area_read f off n).0 ≡ false

-- The answer to VERIFY_FIRMWARE for a checksum that was computed and one that was declared.
abbrev pub answer : ℕ → ℕ → List ℕ
answer crc declared = (if crc == declared then 0 else 1) ∷ bytes32 crc

verdict_lem :
    {F : Type 0} (w : World F) (seq crc : ℕ)
    → ((verdict w seq (crc_of crc)).slot1 ≡ w.slot1)
      × ((verdict w seq (crc_of crc)).effects
          ≡ uart_tx
              (response_bytes w.stack seq cmd_verify_firmware (answer crc w.ota.firmware_crc) 5)
            ∷ w.effects)
unfolding verdict
verdict_lem w seq crc = elim (Bool-cases (crc == w.ota.firmware_crc)) [
  | inl same ↦ rw same (refl, refl)
  | inr other ↦ rw other (refl, refl)
]

-- The TRANSFER_DATA commands for consecutive chunks, the first at `offset`.
pub send_chunks : {F : Type 0} → Board F → World F → ℕ → ℕ → List (List ℕ) → World F
send_chunks b w seq offset [] = w
send_chunks b w seq offset (c ∷ cs) =
    send_chunks b (ota_cmd_transfer_data b w seq (chunk_data offset c []) (4 + length c)) (seq + 1)
      (offset + length c) cs

-- The world after each of the four phases.
module _ {F : Type 0} (b : Board F) (w : World F) (seq : ℕ) (chunks : List (List ℕ)) (crc : ℕ) where
  abbrev pub started : World F
  started =
      ota_cmd_start_upgrade b w seq (bytes32 (length (join chunks)) ++ (bytes32 crc ++ bytes32 0))
        12

  abbrev pub sent : World F
  sent = send_chunks b started seq 0 chunks

  abbrev pub ended : World F
  ended = ota_cmd_transfer_done b sent seq (bytes32 crc ++ bytes32 (length (join chunks))) 8

  abbrev pub checked : World F
  checked = ota_cmd_verify_firmware b ended seq [] 0

module _ {F : Type 0} {b : Board F} {cell : F → ℕ → ℕ} {size : ℕ} (crc_laws : CrcLaws b)
    (flash_laws : FlashLaws b cell size) (reliable : IsReliable b size) where
  -- The chunks that fit the announced size arrive one behind the other.
  send_chunks-Received :
      (chunks : List (List ℕ)) (w : World F) (seq : ℕ) (image : List ℕ)
      → Received b cell size w image
      → All (λ c. length c ≤ 65531) chunks
      → length image + length (join chunks) ≤ w.ota.firmware_size
      → Received b cell size (send_chunks b w seq (length image) chunks) (image ++ join chunks)
  unfolding send_chunks
  send_chunks-Received [] w seq image r hc hf = rw (append-nil image) r
  send_chunks-Received (c ∷ cs) w seq image r hc hf =
      let total : length (c ++ join cs) ≡ length c + length (join cs) = length-append c (join cs) in
      let (r', same) =
        transfer_data-Received crc_laws flash_laws w seq image c [] r hc.0 (omega arith)
          (reliable.writes w.slot1 (length image) c (omega (arith, r.fits))) in
      let w' = ota_cmd_transfer_data b w seq (chunk_data (length image) c []) (4 + length c) in
      let at : length (image ++ c) ≡ length image + length c = length-append image c in
      let rest = send_chunks-Received cs w' (seq + 1) (image ++ c) r' hc.1 (omega arith) in
      subst
        (λ (n : ℕ).
          Received b cell size (send_chunks b w' (seq + 1) n cs) (image ++ (c ++ join cs)))
        at (rw (append_assoc image c (join cs)) at rest)

  transfer_done_complete :
      (w : World F) (seq : ℕ) (image : List ℕ) (crc : ℕ)
      → Received b cell size w image
      → crc < 2 ^ 32
      → let w' = ota_cmd_transfer_done b w seq (bytes32 crc ++ bytes32 (length image)) 8 in
        (w'.ota.status ≡ status_complete)
        × (w'.ota.firmware_size ≡ length image)
        × (w'.ota.firmware_crc ≡ crc)
        × (w'.slot1 ≡ w.slot1)
  unfolding ota_cmd_transfer_done
  transfer_done_complete w seq image crc r hc =
      let n : ℕ = length image in
      let arg : List ℕ = bytes32 crc ++ bytes32 n in
      let t1 : not w.ota.in_progress ≡ false = ground (arith, r.running) in
      let a0 : le32 arg 0 ≡ crc = omega arith in
      let a4 : le32 arg 4 ≡ n = omega (arith, r.fits, r.slot_fits) in
      let t2 : (n == w.ota.received_size) ≡ true = ground (arith, r.received) in
      rw (t1, a0, a4, t2) (refl, refl, refl, refl)

  verify_firmware-verdict :
      (w : World F) (seq : ℕ) (image : List ℕ)
      → w.ota.status ≡ status_complete
      → w.ota.firmware_size ≡ length image
      → length image ≤ size
      → size < 2 ^ 32
      → ((i : ℕ) → i < length image → cell w.slot1 i ≡ get_or image i 0)
      → ota_cmd_verify_firmware b w seq [] 0
        ≡ verdict
            (record w { ota = record (w.ota) { status = status_verifying } })
            seq
            (crc_of (b.crc32_ieee image))
  unfolding ota_cmd_verify_firmware
  verify_firmware-verdict w seq image hs hn hz hb stored =
      let n : ℕ = length image in
      let t1 : not (w.ota.status == status_complete) ≡ false = ground arith in
      let same : cells cell w.slot1 0 n ≡ image = sym (
        cells_eq cell w.slot1 0 n image refl
          (λ i hi. sym (stored i hi) ∙ ap (cell w.slot1) (let e : i ≡ 0 + i = omega arith in e))) in
      let start : b.crc32_ieee [] ≡ 0 = crc_laws.crc32-update [] ∙ crc_laws.update-nil 0 in
      let loop : verify_loop b (suc n) w.slot1 0 0 n ≡ crc_of (b.crc32_ieee image) =
        verify_loop-crc crc_laws flash_laws (suc n) w.slot1 0 0 n (omega arith) (omega arith) hb
          (reliable.reads w.slot1)
        ∙ ap crc_of (ap (b.crc32_ieee_update 0) same ∙ sym (crc_laws.crc32-update image)) in
      rw (t1, start, hn) (ap (verdict _ seq) loop)

  -- On a flash that does not fail, an upload begun in a state that is not busy, of chunks of at most
  -- 65531 bytes that fit the slot together, leaves the chunks in slot 1, one behind the other from
  -- offset 0 on. The answer to VERIFY_FIRMWARE is 0 exactly if the CRC that was declared is that of
  -- these bytes, and else 1; it carries the CRC that was computed.
  pub upload_verified :
      (w : World F) (seq : ℕ) (chunks : List (List ℕ)) (crc : ℕ)
      → (w.ota.status ≡ status_idle) ⊎ (w.ota.status ≡ status_complete)
      → w.ota.slot_size ≡ size
      → size + 65536 ≤ 2 ^ 32
      → All (λ c. length c ≤ 65531) chunks
      → length (join chunks) ≤ size
      → crc < 2 ^ 32
      → let image = join chunks in
        let before = ended b w seq chunks crc in
        let after = checked b w seq chunks crc in
        (cells cell after.slot1 0 (length image) ≡ image)
        × (after.effects
            ≡ uart_tx (
                response_bytes before.stack seq cmd_verify_firmware
                  ((if b.crc32_ieee image == crc then 0 else 1) ∷ bytes32 (b.crc32_ieee image))
                  5)
              ∷ before.effects)
  upload_verified w seq chunks crc hi hs hz hc hf hcrc =
      let image : List ℕ = join chunks in
      let arg : List ℕ = bytes32 (length image) ++ (bytes32 crc ++ bytes32 0) in
      let asked : le32 arg 0 ≡ length image =
        le32-bytes32 (length image) (bytes32 crc ++ bytes32 0) (omega arith) in
      let (r0, size0, _) =
        start_upgrade-Received crc_laws flash_laws w seq arg 12 (omega arith) hi hs hz (omega arith)
          (reliable.erases w.slot1) in
      let r1 =
        send_chunks-Received chunks (started b w seq chunks crc) seq [] r0 hc (omega arith) in
      let (status, announced, declared, same) =
        transfer_done_complete (sent b w seq chunks crc) seq image crc r1 hcrc in
      let stored : (i : ℕ)
          → i < length image
          → cell (ended b w seq chunks crc).slot1 i ≡ get_or image i 0 =
        λ i hl. ap (λ f. cell f i) same ∙ r1.stored i hl in
      let verdict_eq =
        verify_firmware-verdict (ended b w seq chunks crc) seq image status announced hf
          (omega arith) stored in
      let before : World F = ended b w seq chunks crc in
      let sum : ℕ = b.crc32_ieee image in
      let (slot, effects) =
        verdict_lem (record before { ota = record (before.ota) { status = status_verifying } }) seq
          sum in
      let content : cells cell before.slot1 0 (length image) ≡ image = sym (
        cells_eq cell before.slot1 0 (length image) image refl (λ i h.
          sym (stored i h) ∙ ap (cell before.slot1) (let e : i ≡ 0 + i = omega arith in e))) in
      rw verdict_eq (
        ap (λ f. cells cell f 0 (length image)) slot ∙ content,
        effects
            ∙ ap
                (λ (d : ℕ).
                  uart_tx (response_bytes before.stack seq cmd_verify_firmware (answer sum d) 5)
                  ∷ before.effects)
                declared,
      )
