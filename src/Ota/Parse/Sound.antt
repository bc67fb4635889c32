-- ===== src/Ota/Parse/Sound.antt =====
-- What `ota_frame_parse` accepts, and where it reads.
use zephyr_stm32h.Common.{
  ℕ, zero, suc, ◌+◌, ◌*◌, ◌≤◌, ◌<◌, ◌≡◌, refl, sym, ap, subst, ◌∙◌, ◌≢◌, ◌↔◌, true, false, List,
  arith, ltb, if◌then◌else◌, lt→ltb, ==_iff, length, get_or, take, drop, length-take, length-drop,
  take-append_left, take_all, u16, le16,
}
use zephyr_stm32h.Ota.Frame.{Frame, overwrite}
use zephyr_stm32h.Ota.Parse.{
  Parsed, fault, reject, parsed, is_header, scan, parse_at, read_frame, parse_bytes,
  ota_frame_parse,
}
use zephyr_stm32h.Ota.Parse.Scan.{scan_skips, scan_stops, scan_first}

-- The first header of the input stands at `pos`.
pub record IsFirst (buf : List ℕ) (len pos : ℕ) : Type 0 where
  pub room : pos + 18 ≤ len
  pub here : is_header buf pos ≡ true
  pub before : (i : ℕ) → i < pos → is_header buf i ≡ false

pub parse-first :
    (buf : List ℕ) (len pos : ℕ) (frame : Frame)
    → len < 65536
    → IsFirst buf len pos
    → ota_frame_parse buf len frame ≡ parse_at buf len frame pos
unfolding ota_frame_parse parse_bytes
parse-first buf len pos frame hl f =
    let short : u16 len ≡ len = omega arith in
    let e : scan len buf len 0 ≡ pos =
      scan_first buf len len 0 pos (omega arith) (omega (arith, f.room)) f.room f.here
        (λ j lo hi. f.before j hi) in
    rw short (ground (arith, f.room, e))

parse_found :
    (buf : List ℕ) (len : ℕ) (frame : Frame) {r : Parsed}
    → len < 65536
    → ota_frame_parse buf len frame ≡ r
    → r ≢ reject
    → (pos : ℕ) × IsFirst buf len pos × (parse_at buf len frame pos ≡ r)
unfolding ota_frame_parse parse_bytes
parse_found buf len frame hl e' h =
    let short : u16 len ≡ len = omega arith in
    let e = (rw short at e') in
    let pos : ℕ = scan len buf len 0 in
    let room : pos + 18 ≤ len = ground arith in
    let first : IsFirst buf len pos = record {
      room = room;
      here = scan_stops buf len len 0 (omega arith) room;
      before = λ i hi. scan_skips buf len len 0 i (omega arith) hi;
    } in
    (pos, first, ground arith)

-- The frame stands in the bytes at `pos`: the two bytes of the header, seven fields of two bytes each, the
-- least significant one first, the data, and the trailer behind them.
pub record Stands (buf : List ℕ) (pos : ℕ) (g : Frame) : Type 0 where
  pub header_eq : (g.header_0 ≡ 0x12) × (g.header_1 ≡ 0x34)
  pub seq_eq : g.seq ≡ get_or buf (pos + 2) 0 + 256 * get_or buf (pos + 3) 0
  pub src_eq : g.src_addr ≡ get_or buf (pos + 4) 0 + 256 * get_or buf (pos + 5) 0
  pub dst_eq : g.dst_addr ≡ get_or buf (pos + 6) 0 + 256 * get_or buf (pos + 7) 0
  pub total_eq : g.total_packets ≡ get_or buf (pos + 8) 0 + 256 * get_or buf (pos + 9) 0
  pub packet_eq : g.packet_seq ≡ get_or buf (pos + 10) 0 + 256 * get_or buf (pos + 11) 0
  pub cmd_eq : g.cmd ≡ get_or buf (pos + 12) 0 + 256 * get_or buf (pos + 13) 0
  pub len_eq : g.data_len ≡ get_or buf (pos + 14) 0 + 256 * get_or buf (pos + 15) 0
  pub data_eq : take g.data_len g.data_bytes ≡ take g.data_len (drop (pos + 16) buf)
  pub reserved_eq :
      g.reserved ≡ get_or buf (pos + 16 + g.data_len) 0 + 256 * get_or buf (pos + 17 + g.data_len) 0
  pub tail_eq :
      (g.tail_0 ≡ get_or buf (pos + 18 + g.data_len) 0)
      × (g.tail_1 ≡ get_or buf (pos + 19 + g.data_len) 0)

-- What is copied is what was there, if there is enough.
pub take-copy :
    (old src : List ℕ) (len : ℕ)
    → len ≤ length src
    → take len (if ltb 0 len then overwrite old src len else old) ≡ take len src
take-copy old src zero h = refl
take-copy old src (suc n) h = rw (lt→ltb 0 (suc n) (omega arith)) (
    take-append_left (suc n) (take (suc n) src) (drop (suc n) old)
      (omega (arith, length-take (suc n) src))
    ∙ take_all (suc n) (take (suc n) src) (omega (arith, length-take (suc n) src)))

read_frame-Stands :
    (buf : List ℕ) (pos : ℕ) (frame : Frame)
    → is_header buf pos ≡ true
    → pos + 20 + le16 buf (pos + 14) ≤ length buf
    → Stands buf pos (read_frame buf pos frame)
unfolding read_frame is_header
read_frame-Stands buf pos frame h l =
    let len : ℕ = le16 buf (pos + 14) in
    let at : (i j : ℕ) → i ≡ j → get_or buf i 0 ≡ get_or buf j 0 =
      λ i j e. ap (λ (k : ℕ). get_or buf k 0) e in
    record {
      header_eq = (
        ground (arith, h, ==_iff (get_or buf pos 0) 0x12),
        ground (arith, h, ==_iff (get_or buf (pos + 1) 0) 0x34),
      );
      seq_eq = omega (arith, at (pos + 2 + 1) (pos + 3) (omega arith));
      src_eq = omega (arith, at (pos + 4 + 1) (pos + 5) (omega arith));
      dst_eq = omega (arith, at (pos + 6 + 1) (pos + 7) (omega arith));
      total_eq = omega (arith, at (pos + 8 + 1) (pos + 9) (omega arith));
      packet_eq = omega (arith, at (pos + 10 + 1) (pos + 11) (omega arith));
      cmd_eq = omega (arith, at (pos + 12 + 1) (pos + 13) (omega arith));
      len_eq = omega (arith, at (pos + 14 + 1) (pos + 15) (omega arith));
      data_eq =
          take-copy frame.data_bytes (drop (pos + 16) buf) len
            (omega (arith, length-drop (pos + 16) buf, l));
      reserved_eq = omega (arith, at (pos + 16 + len + 1) (pos + 17 + len) (omega arith));
      tail_eq = (
        at (pos + 16 + len + 2) (pos + 18 + len) (omega arith),
        at (pos + 16 + len + 3) (pos + 19 + len) (omega arith),
      );
    }

-- From an input of less than 65536 bytes a frame is accepted only at the first header. Its fields, its data and
-- its trailer are the bytes that stand there, the whole frame lies in the object that holds the bytes, and
-- the length that is returned is that of the frame as a uint16_t, and lies in the input.
pub parse_accepts :
    (buf : List ℕ) (len n : ℕ) (frame g : Frame)
    → len < 65536
    → ota_frame_parse buf len frame ≡ parsed n g
    → (pos : ℕ) × IsFirst buf len pos
      × Stands buf pos g
      × (n ≡ u16 (20 + g.data_len))
      × (pos + n ≤ len)
      × (pos + 20 + g.data_len ≤ length buf)
unfolding parse_at
parse_accepts buf len n frame g hl e =
    let (pos, first, p) = parse_found buf len frame hl e (λ q. cc) in
    let same : read_frame buf pos frame ≡ g = ground arith in
    let inside : pos + 20 + le16 buf (pos + 14) ≤ length buf = ground arith in
    let stands = subst (Stands buf pos) same (read_frame-Stands buf pos frame first.here inside) in
    let n_eq : n ≡ u16 (20 + le16 buf (pos + 14)) = ground arith in
    let fits : pos + n ≤ len = ground arith in
    let next : pos + 14 + 1 ≡ pos + 15 = omega arith in
    let d : le16 buf (pos + 14) ≡ g.data_len = rw next (sym stands.len_eq) in
    (
      pos,
      first,
      stands,
      subst (λ (k : ℕ). n ≡ u16 (20 + k)) d n_eq,
      fits,
      subst (λ (k : ℕ). pos + 20 + k ≤ length buf) d inside,
    )

-- A read outside of the object that holds the bytes needs a header whose length field wraps.
pub parse_faults :
    (buf : List ℕ) (len : ℕ) (frame : Frame)
    → len < 65536
    → ota_frame_parse buf len frame ≡ fault
    → len ≤ length buf
    → (pos : ℕ) × IsFirst buf len pos × (65516 ≤ le16 buf (pos + 14))
unfolding parse_at
parse_faults buf len frame short e hl =
    let (pos, first, p) = parse_found buf len frame short e (λ q. cc) in (pos, first, ground arith)

-- In an object of less than 65516 bytes that holds the whole input, in which there is a header, the
-- parser reads outside of the object exactly if the first header has a length of 65516 or more,
-- which wraps the length of the frame, and the wrapped length fits the input.
pub parse_faults_iff :
    (buf : List ℕ) (len pos : ℕ) (frame : Frame)
    → IsFirst buf len pos
    → len ≤ length buf
    → length buf < 65516
    → (ota_frame_parse buf len frame ≡ fault)
      ↔ ((65516 ≤ le16 buf (pos + 14)) × (pos + u16 (20 + le16 buf (pos + 14)) ≤ len))
unfolding parse_at
parse_faults_iff buf len pos frame f hl hb =
    rw (parse-first buf len pos frame (omega arith) f) ((λ e. ground arith), λ h. ground arith)
