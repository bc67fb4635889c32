-- ===== src/Ota/Frame.antt =====
-- The frame of ota_protocol.h and `ota_frame_build` of ota_protocol.c.
use zephyr_stm32h.Common.{
  ℕ, ◌+◌, Option, none, some, List, [], ◌∷◌, ◌++◌, take, drop, ltb, if◌then◌else◌, bytes16,
}

abbrev pub frame_header_0 : ℕ
frame_header_0 = 0x12

abbrev pub frame_header_1 : ℕ
frame_header_1 = 0x34

abbrev pub frame_tail_0 : ℕ
frame_tail_0 = 0xcd

abbrev pub frame_tail_1 : ℕ
frame_tail_1 = 0xef

abbrev pub frame_min_size : ℕ
frame_min_size = 18

abbrev pub frame_max_data_len : ℕ
frame_max_data_len = 65535

-- sizeof(ota_frame_header_t) and sizeof(ota_frame_tail_t); both structs are packed.
abbrev pub header_size : ℕ
header_size = 16

abbrev pub tail_size : ℕ
tail_size = 4

-- `ota_frame_t`; `data_bytes` is the array `data` of FRAME_MAX_DATA_LEN bytes.
pub record Frame : Type 0 where
  pub header_0 : ℕ
  pub header_1 : ℕ
  pub seq : ℕ
  pub src_addr : ℕ
  pub dst_addr : ℕ
  pub total_packets : ℕ
  pub packet_seq : ℕ
  pub cmd : ℕ
  pub data_len : ℕ
  pub data_bytes : List ℕ
  pub reserved : ℕ
  pub tail_0 : ℕ
  pub tail_1 : ℕ

-- memcpy(dst, src, n) into an array that starts at `dst`.
abbrev pub overwrite : List ℕ → List ℕ → ℕ → List ℕ
overwrite dst src n = take n src ++ drop n dst

-- The memory image of the packed struct: 16 bytes, the whole `data` array, then 4 bytes.
abbrev pub header_bytes : Frame → List ℕ
header_bytes f =
    (f.header_0 ∷ f.header_1 ∷ [])
    ++ bytes16 f.seq
    ++ bytes16 f.src_addr
    ++ bytes16 f.dst_addr
    ++ bytes16 f.total_packets
    ++ bytes16 f.packet_seq
    ++ bytes16 f.cmd
    ++ bytes16 f.data_len

abbrev pub tail_bytes : Frame → List ℕ
tail_bytes f = bytes16 f.reserved ++ (f.tail_0 ∷ f.tail_1 ∷ [])

unfoldable pub struct_bytes : Frame → List ℕ
struct_bytes f = header_bytes f ++ (f.data_bytes ++ tail_bytes f)

-- `if (data && data_len > 0) memcpy(frame->data, data, data_len)`.
unfoldable pub fill : List ℕ → Option (List ℕ) → ℕ → List ℕ
fill old none data_len = old
fill old (some bytes) data_len = if ltb 0 data_len then overwrite old bytes data_len else old

-- `data` may be NULL. The int that is returned is the length that the frame has on the wire.
unfoldable pub ota_frame_build : Frame → ℕ → ℕ → ℕ → ℕ → ℕ → ℕ → Option (List ℕ) → ℕ → Frame × ℕ
ota_frame_build frame seq src dst total pkt_seq cmd payload data_len = (
  record frame {
    header_0 = frame_header_0;
    header_1 = frame_header_1;
    seq = seq;
    src_addr = src;
    dst_addr = dst;
    total_packets = total;
    packet_seq = pkt_seq;
    cmd = cmd;
    data_len = data_len;
    data_bytes = fill frame.data_bytes payload data_len;
    reserved = 0;
    tail_0 = frame_tail_0;
    tail_1 = frame_tail_1;
  },
  header_size + data_len + tail_size,
)
