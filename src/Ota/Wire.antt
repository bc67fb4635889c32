-- ===== src/Ota/Wire.antt =====
-- What `ota_send_response` puts on the serial line.
use zephyr_stm32h.Common.{
  ℕ, ◌+◌, ◌≤◌, ◌≡◌, refl, zero, suc, some, lt→ltb, ap, ◌∙◌, List, [], ◌∷◌, ◌++◌, append_assoc,
  length, take, drop, take-append_left, take-append_right, length-take, length-drop, u16, bytes16,
  arith,
}
use zephyr_stm32h.Ota.Frame.{
  Frame, frame_max_data_len, overwrite, struct_bytes, fill, ota_frame_build,
}
use zephyr_stm32h.Ota.World.{response_bytes, addr_device, addr_pc}

take_payload :
    (payload old tail : List ℕ) (len : ℕ)
    → len ≤ length payload
    → len + 4 ≤ length old
    → take (len + 4) ((take len payload ++ drop len old) ++ tail)
      ≡ take len payload ++ take 4 (drop len old)
take_payload payload old tail len hp ho = rw append_assoc (
    take-append_right (len + 4) 4 (take len payload) (drop len old ++ tail)
      (omega (arith, length-take len payload))
    ∙ ap (λ l. take len payload ++ l)
        (take-append_left 4 (drop len old) tail (omega (arith, length-drop len old))))

pub fill-some : (old bytes : List ℕ) (len : ℕ) → fill old (some bytes) len ≡ overwrite old bytes len
unfolding fill
fill-some old bytes zero = refl
fill-some old bytes (suc len) = rw (lt→ltb 0 (suc len) (omega arith))

-- The header of a frame that `ota_frame_build` has filled in.
abbrev pub wire_header : ℕ → ℕ → ℕ → ℕ → ℕ → ℕ → ℕ → List ℕ
wire_header seq src dst total pkt_seq cmd len =
    (0x12 ∷ 0x34 ∷ [])
    ++ bytes16 seq
    ++ bytes16 src
    ++ bytes16 dst
    ++ bytes16 total
    ++ bytes16 pkt_seq
    ++ bytes16 cmd
    ++ bytes16 len

-- The first `16 + len + 4` bytes of the struct: the header, the payload, and four bytes that the
-- payload has left in the array `data`.
pub build_wire :
    (frame : Frame) (seq src dst total pkt_seq cmd len : ℕ) (payload : List ℕ)
    → length frame.data_bytes ≡ frame_max_data_len
    → len ≤ length payload
    → len ≤ 65515
    → let (f, n) = ota_frame_build frame seq src dst total pkt_seq cmd (some payload) len in
      take n (struct_bytes f)
      ≡ wire_header seq src dst total pkt_seq cmd len
        ++ (take len payload ++ take 4 (drop len frame.data_bytes))
unfolding ota_frame_build struct_bytes
build_wire frame seq src dst total pkt_seq cmd len payload hs hp hl =
    let header : List ℕ = wire_header seq src dst total pkt_seq cmd len in
    let e : 16 + len + 4 ≡ 16 + (len + 4) = omega arith in
    rw (e, fill-some frame.data_bytes payload len)
      (take-append_right (16 + (len + 4)) (len + 4) header _ refl
        ∙ ap (λ l. header ++ l) (take_payload payload frame.data_bytes _ len hp (omega arith)))

-- A response of `len` payload bytes, 65515 at most, goes out as the header, the payload, and four bytes that are left
-- of the old contents of the local frame: its own trailer, which is built, is not sent.
pub response_wire :
    (stack : Frame) (seq cmd len : ℕ) (payload : List ℕ)
    → length stack.data_bytes ≡ frame_max_data_len
    → len ≤ length payload
    → len ≤ 65515
    → response_bytes stack seq cmd payload len
      ≡ wire_header seq addr_device addr_pc 1 0 cmd len
        ++ (take len payload ++ take 4 (drop len stack.data_bytes))
unfolding response_bytes
response_wire stack seq cmd len payload hs hp hl =
    let e : u16 (16 + len + 4) ≡ 16 + len + 4 = omega arith in
    rw e (build_wire stack seq addr_device addr_pc 1 0 cmd len payload hs hp hl)
