-- ===== src/Ota/Parse/RoundTrip.antt =====
-- `ota_frame_parse` reads back what `ota_frame_build` wrote.
use zephyr_stm32h.Common.{
  ℕ, zero, suc, ◌+◌, ◌≤◌, ◌<◌, ◌≡◌, refl, ◌∙◌, ◌≢◌, true, false, some, List, [], ◌∷◌, ◌++◌,
  append_assoc, arith, length, take, drop, All, length-append, length-take, length-drop,
  take-append_left, drop-append_right, take_all, get_or-append_right, le16,
}
use zephyr_stm32h.Ota.Frame.{Frame, frame_max_data_len, struct_bytes, ota_frame_build}
use zephyr_stm32h.Ota.Wire.{wire_header, build_wire}
use zephyr_stm32h.Ota.Parse.{parsed, is_header, parse_at, read_frame, ota_frame_parse}
use zephyr_stm32h.Ota.Parse.Sound.{IsFirst, parse-first, take-copy}

-- No byte is the first one of a frame header.
abbrev pub IsQuiet : List ℕ → Type 0
IsQuiet = All (λ x. x ≢ 0x12)

pub IsQuiet-not_header :
    (garbage more : List ℕ) (i : ℕ)
    → IsQuiet garbage
    → i < length garbage
    → is_header (garbage ++ more) i ≡ false
unfolding is_header
IsQuiet-not_header [] more i q h = absurd (omega arith)
IsQuiet-not_header (x ∷ xs) more zero q h = ground (arith, q.0)
IsQuiet-not_header (x ∷ xs) more (suc i) q h =
    let e : suc i + 1 ≡ suc (i + 1) = omega arith in
    rw e (IsQuiet-not_header xs more i q.1 (omega arith))

le16-append_right : (xs ys : List ℕ) (k : ℕ) → le16 (xs ++ ys) (length xs + k) ≡ le16 ys k
le16-append_right xs ys k = omega (
  arith,
  get_or-append_right xs ys (length xs + k) k 0 refl,
  get_or-append_right xs ys (length xs + k + 1) (k + 1) 0 (omega arith),
)

-- What the bytes of a frame, behind any bytes that hold no header, are read as.
pub record Carries (seq src dst total pkt_seq cmd len : ℕ) (payload : List ℕ) (g : Frame)
    : Type 0 where
  pub seq_eq : g.seq ≡ seq
  pub src_eq : g.src_addr ≡ src
  pub dst_eq : g.dst_addr ≡ dst
  pub total_eq : g.total_packets ≡ total
  pub pkt_seq_eq : g.packet_seq ≡ pkt_seq
  pub cmd_eq : g.cmd ≡ cmd
  pub len_eq : g.data_len ≡ len
  pub payload_eq : take len g.data_bytes ≡ take len payload

module _ (seq src dst total pkt_seq cmd len : ℕ) (payload garbage more : List ℕ)
    (hq : IsQuiet garbage) (hp : len ≤ length payload) (hl : len ≤ 65515) where
  abbrev pub image : List ℕ
  image = wire_header seq src dst total pkt_seq cmd len ++ (take len payload ++ more)

  image-header : is_header (garbage ++ image) (length garbage) ≡ true
  unfolding is_header
  image-header = rw (
    get_or-append_right garbage image (length garbage) 0 0 (omega arith),
    get_or-append_right garbage image (length garbage + 1) 1 0 refl,
  )

  image-IsFirst : (n : ℕ) → length garbage + 18 ≤ n → IsFirst (garbage ++ image) n (length garbage)
  image-IsFirst n hn = record {
    room = hn;
    here = image-header;
    before = λ i hi. IsQuiet-not_header garbage image i hq hi;
  }

  len_decoded : le16 image 14 ≡ len
  len_decoded = omega arith

  pub image-Carries :
      seq < 65536
      → src < 65536
      → dst < 65536
      → total < 65536
      → pkt_seq < 65536
      → cmd < 65536
      → (stack : Frame)
      → Carries seq src dst total pkt_seq cmd len payload
          (read_frame (garbage ++ image) (length garbage) stack)
  unfolding read_frame
  image-Carries h1 h2 h3 h4 h5 h6 stack = record {
    seq_eq = le16-append_right garbage image 2 ∙ omega arith;
    src_eq = le16-append_right garbage image 4 ∙ omega arith;
    dst_eq = le16-append_right garbage image 6 ∙ omega arith;
    total_eq = le16-append_right garbage image 8 ∙ omega arith;
    pkt_seq_eq = le16-append_right garbage image 10 ∙ omega arith;
    cmd_eq = le16-append_right garbage image 12 ∙ omega arith;
    len_eq = le16-append_right garbage image 14 ∙ omega arith;
    payload_eq =
        rw
          (
            le16-append_right garbage image 14 ∙ len_decoded,
            drop-append_right (length garbage + 16) 16 garbage image refl,
          )
          (take-copy stack.data_bytes (take len payload ++ more) len
              (omega (arith, length-append (take len payload) more, length-take len payload))
            ∙ take-append_left len (take len payload) more (omega (arith, length-take len payload))
            ∙ take_all len (take len payload) (omega (arith, length-take len payload)));
  }

  pub image-parsed :
      (n : ℕ) (stack : Frame)
      → n < 65536
      → length garbage + 20 + len ≤ n
      → 4 ≤ length more
      → ota_frame_parse (garbage ++ image) n stack
        ≡ parsed (16 + len + 4) (read_frame (garbage ++ image) (length garbage) stack)
  unfolding parse_at
  image-parsed n stack short hn hm =
      rw
        (
          parse-first (garbage ++ image) n (length garbage) stack short
              (image-IsFirst n (omega arith)),
          le16-append_right garbage image 14 ∙ len_decoded,
        )
        (ground (
          arith,
          length-append garbage image,
          length-append (take len payload) more,
          length-take len payload,
        ))

-- A frame that `ota_frame_build` made of 16-bit fields is parsed again from what goes over the line,
-- whatever follows it, and whatever bytes without 0x12 stand in front, if all these bytes are fewer than
-- 65536, as many as the length that is given to the parser can say. The fields and the payload are those
-- given to `ota_frame_build`, and the length returned is that of the frame alone.
pub parse-build :
    (frame stack : Frame) (seq src dst total pkt_seq cmd len : ℕ) (payload garbage rest : List ℕ)
    → length frame.data_bytes ≡ frame_max_data_len
    → (seq < 65536)
      × (src < 65536)
      × (dst < 65536)
      × (total < 65536)
      × (pkt_seq < 65536)
      × (cmd < 65536)
    → len ≤ length payload
    → length garbage + 20 + len + length rest < 65536
    → IsQuiet garbage
    → let (f, n) = ota_frame_build frame seq src dst total pkt_seq cmd (some payload) len in
      let buf = garbage ++ (take n (struct_bytes f) ++ rest) in
      (g : Frame) × (ota_frame_parse buf (length buf) stack ≡ parsed n g)
      × Carries seq src dst total pkt_seq cmd len payload g
unfolding ota_frame_build
parse-build frame stack seq src dst total pkt_seq cmd len payload garbage rest hs hb hp short hq =
    let hl : len ≤ 65515 = omega (arith, short) in
    let t : List ℕ = take 4 (drop len frame.data_bytes) in
    let ht : length t ≡ 4 =
      omega (arith, length-take 4 (drop len frame.data_bytes), length-drop len frame.data_bytes) in
    let buf : List ℕ =
      garbage ++ image seq src dst total pkt_seq cmd len payload garbage (t ++ rest) hq hp hl in
    rw
      (
        build_wire frame seq src dst total pkt_seq cmd len payload hs hp hl,
        append_assoc (take len payload) (take 4 (drop len frame.data_bytes)) rest,
      )
      (
        read_frame buf (length garbage) stack,
        image-parsed seq src dst total pkt_seq cmd len payload garbage (t ++ rest) hq hp hl
            (length buf) stack
            (omega (
              arith,
              short,
              length-append garbage
                  (image seq src dst total pkt_seq cmd len payload garbage (t ++ rest) hq hp hl),
              length-append (take len payload) (t ++ rest),
              length-append t rest,
              length-take len payload,
              ht,
            ))
            (omega (
              arith,
              length-append garbage
                  (image seq src dst total pkt_seq cmd len payload garbage (t ++ rest) hq hp hl),
              length-append (take len payload) (t ++ rest),
              length-append t rest,
              length-take len payload,
            ))
            (omega (arith, length-append t rest)),
        image-Carries seq src dst total pkt_seq cmd len payload garbage (t ++ rest) hq hp hl hb.0
            hb.1 hb.2 hb.3 hb.4 hb.5 stack,
      )
