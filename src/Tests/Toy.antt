-- ===== src/Tests/Toy.antt =====
-- A board whose flash never fails and whose checksum is a sum; it meets the laws of `Ota.Laws`.
use zephyr_stm32h.Common.{
  ℕ, zero, suc, ◌+◌, ◌-◌, ◌%◌, ◌^◌, ◌≤◌, ◌<◌, ◌≡◌, refl, ap, ◌∙◌, Bool, true, false, ◌&&◌, List, [],
  ◌∷◌, ◌++◌, arith, ltb, leb, if◌then◌else◌, length, get_or, replicate, length-append,
  length-replicate, pos,
}
use zephyr_stm32h.Ota.Frame.{Frame}
use zephyr_stm32h.Ota.Laws.{CrcLaws, FlashLaws, cells, length-cells}
use zephyr_stm32h.Ota.Image.{IsReliable}
use zephyr_stm32h.Ota.Rx.{Rx}
use zephyr_stm32h.Ota.Rx.Buffer.{RxOk}
use zephyr_stm32h.Ota.Session.{SessionOk}
use zephyr_stm32h.Ota.World.{OtaState, World, Board, status_idle, max_packet_size}

abbrev pub Flash : Type 0
Flash = ℕ → ℕ

abbrev pub cell : Flash → ℕ → ℕ
cell f i = f i

abbrev pub sum_from : ℕ → List ℕ → ℕ
sum_from acc [] = acc
sum_from acc (x ∷ xs) = sum_from ((acc + x) % 2 ^ 32) xs

abbrev pub in_range : ℕ → ℕ → ℕ → Bool
in_range off len i = leb off i && ltb i (off + len)

abbrev pub toy_board : Board Flash
toy_board = record {
  flash_area_erase = λ f off len. (pos 0, λ i. if in_range off len i then 0xff else f i);
  flash_area_write =
      λ f off bs. (pos 0, λ i. if in_range off (length bs) i then get_or bs (i - off) 0 else f i);
  flash_area_read = λ f off n. (pos 0, cells cell f off n);
  crc32_ieee_update = sum_from;
  crc32_ieee = sum_from 0;
}

sum_from-append : (c : ℕ) (xs ys : List ℕ) → sum_from c (xs ++ ys) ≡ sum_from (sum_from c xs) ys
sum_from-append c [] ys = refl
sum_from-append c (x ∷ xs) ys = sum_from-append ((c + x) % 2 ^ 32) xs ys

pub toy-CrcLaws : CrcLaws toy_board
toy-CrcLaws = record {
  update-nil = λ c. refl;
  update-append = sum_from-append;
  crc32-update = λ xs. refl;
}

get_or-cells : (f : Flash) (off n i : ℕ) → i < n → get_or (cells cell f off n) i 0 ≡ f (off + i)
unfolding cells
get_or-cells f off zero i h = absurd (omega arith)
get_or-cells f off (suc n) zero h = ap f (let e : off ≡ off + 0 = omega arith in e)
get_or-cells f off (suc n) (suc i) h =
    get_or-cells f (off + 1) n i (omega arith)
    ∙ ap f (let e : off + 1 + i ≡ off + suc i = omega arith in e)

pub toy-FlashLaws : (size : ℕ) → FlashLaws toy_board cell size
toy-FlashLaws size = record {
  erased = λ f off len i _ _ lo hi. let t : in_range off len i ≡ true = ground arith in rw t;
  written = λ f off bs i _ _ _ hi.
      (let t : in_range off (length bs) (off + i) ≡ true = ground arith in
        let e : off + i - off ≡ i = omega arith in rw (t, e));
  kept = λ f off bs i _ _ out. let t : in_range off (length bs) i ≡ false = ground arith in rw t;
  read-length = λ f off n _ _. length-cells cell f off n;
  read-cell = λ f off n i _ _ hi. get_or-cells f off n i hi;
}

pub toy-IsReliable : (size : ℕ) → IsReliable toy_board size
toy-IsReliable size = record {
  erases = λ f. refl;
  writes = λ f off bs _. refl;
  reads = λ f off n _. refl;
}

abbrev pub idle_state : OtaState
idle_state = record {
  status = status_idle;
  error_code = 0;
  received_size = 0;
  firmware_size = 0;
  firmware_crc = 0;
  calculated_crc = 0;
  current_offset = 0;
  max_packet = max_packet_size;
  boot_flag = 0;
  slot0_offset = 0x20000;
  slot1_offset = 0x110000;
  slot_size = 8;
  in_progress = false;
}

-- A stack slot with 0x55 in each byte of `data`.
abbrev pub old_frame : Frame
old_frame = record {
  header_0 = 0;
  header_1 = 0;
  seq = 0;
  src_addr = 0;
  dst_addr = 0;
  total_packets = 0;
  packet_seq = 0;
  cmd = 0;
  data_len = 0;
  data_bytes = replicate 65535 0x55;
  reserved = 0;
  tail_0 = 0;
  tail_1 = 0;
}

abbrev pub fresh : World Flash
fresh = record {
  ota = idle_state;
  slot1 = λ i. 0;
  stack = old_frame;
  effects = [];
  rebooted = false;
}

-- A handshake request, 20 bytes.
abbrev pub handshake : List ℕ
handshake =
    0x12 ∷ 0x34 ∷ 7 ∷ 0 ∷ 0 ∷ 0 ∷ 0x20 ∷ 0 ∷ 1 ∷ 0 ∷ 0 ∷ 0 ∷ 1 ∷ 0 ∷ 0 ∷ 0 ∷ 0 ∷ 0 ∷ 0xcd ∷ 0xef
    ∷ []

-- A receive buffer that holds `bytes`, and zeros behind.
abbrev pub rx_of : List ℕ → Rx
rx_of bytes = record { rx_buf = bytes ++ replicate (4096 - length bytes) 0; rx_len = length bytes }

pub rx_of-RxOk : (bytes : List ℕ) → length bytes ≤ 4096 → RxOk (rx_of bytes)
rx_of-RxOk bytes h = record {
  size =
      length-append bytes (replicate (4096 - length bytes) 0)
      ∙ omega (arith, length-replicate {A = ℕ} (4096 - length bytes) 0);
  bound = h;
}

pub idle_state-SessionOk : SessionOk idle_state
idle_state-SessionOk = ground arith

-- A frame as the parser leaves it.
abbrev pub frame_of : ℕ → List ℕ → Frame
frame_of cmd payload = record old_frame {
  header_0 = 0x12;
  header_1 = 0x34;
  seq = 7;
  dst_addr = 0x20;
  cmd = cmd;
  data_len = length payload;
  data_bytes = payload ++ replicate (65535 - length payload) 0;
}
