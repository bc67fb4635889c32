-- ===== src/Ota/Parse.antt =====
-- `ota_frame_parse` of ota_protocol.c.
pub mod Scan
pub mod Sound
pub mod RoundTrip
use zephyr_stm32h.Common.{
  ℕ, zero, suc, ◌+◌, ◌-◌, Bool, ◌&&◌, List, length, get_or, drop, ltb, leb, ◌==◌, if◌then◌else◌,
  u16, le16,
}
use zephyr_stm32h.Ota.Frame.{
  Frame, frame_header_0, frame_header_1, frame_min_size, header_size, tail_size, overwrite,
}

-- `reject` is -1. `fault` stands for a read past the end of the object that holds the bytes, which
-- C does not define.
pub data Parsed : Type 0 where
  fault : Parsed
  reject : Parsed
  parsed : ℕ → Frame → Parsed

-- The two bytes of the header stand at an index.
unfoldable pub is_header : List ℕ → ℕ → Bool
is_header buf pos = get_or buf pos 0 == frame_header_0 && get_or buf (pos + 1) 0 == frame_header_1

-- The `while` loop: the value of `pos` when it ends. It is at most `len` - 17, so a uint16_t as `len` is.
unfoldable pub scan : ℕ → List ℕ → ℕ → ℕ → ℕ
scan zero buf len pos = pos
scan (suc fuel) buf len pos =
    let rest = scan fuel buf len (pos + 1) in
    if leb pos (len - frame_min_size) then (if is_header buf pos then pos else rest) else pos

-- What is copied out of the bytes at `pos`; the packed structs are read in place.
unfoldable pub read_frame : List ℕ → ℕ → Frame → Frame
read_frame buf pos frame =
    let data_len = le16 buf (pos + 14) in
    record frame {
      header_0 = get_or buf pos 0;
      header_1 = get_or buf (pos + 1) 0;
      seq = le16 buf (pos + 2);
      src_addr = le16 buf (pos + 4);
      dst_addr = le16 buf (pos + 6);
      total_packets = le16 buf (pos + 8);
      packet_seq = le16 buf (pos + 10);
      cmd = le16 buf (pos + 12);
      data_len = data_len;
      data_bytes =
          if ltb 0 data_len
          then overwrite frame.data_bytes (drop (pos + header_size) buf) data_len
          else frame.data_bytes;
      reserved = le16 buf (pos + header_size + data_len);
      tail_0 = get_or buf (pos + header_size + data_len + 2) 0;
      tail_1 = get_or buf (pos + header_size + data_len + 3) 0;
    }

-- The part behind the search. `total_frame_len` is a uint16_t, so the sum wraps.
unfoldable pub parse_at : List ℕ → ℕ → Frame → ℕ → Parsed
parse_at buf len frame pos =
    let data_len = le16 buf (pos + 14) in
    let total_frame_len = u16 (header_size + data_len + tail_size) in
    if ltb len (pos + total_frame_len)
    then reject
    else if ltb (length buf) (pos + header_size + data_len + tail_size)
    then fault
    else parsed total_frame_len (read_frame buf pos frame)

-- The body of `ota_frame_parse`, for a `len` below 65536.
unfoldable pub parse_bytes : List ℕ → ℕ → Frame → Parsed
parse_bytes buf len frame =
    if ltb len frame_min_size
    then reject
    else (let pos = scan len buf len 0 in
        if ltb (len - frame_min_size) pos then reject else parse_at buf len frame pos)

-- `buf` holds the bytes from the pointer up to the end of its object, of which `len` are the input. The
-- argument is a uint16_t.
unfoldable pub ota_frame_parse : List ℕ → ℕ → Frame → Parsed
unfolding parse_bytes
ota_frame_parse buf len frame = parse_bytes buf (u16 len) frame
