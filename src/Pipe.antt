-- ===== src/Pipe.antt =====
-- The threads of app39_pipe/src/main.c, over Zephyr's pipe as a parameter.
pub mod Main
pub mod Bytes
pub mod Overrun
use mathlib.Core.Option
use zephyr_stm32h.Common.{
  ℕ, ◌>>=◌, zero, suc, ◌+◌, ◌-◌, ◌*◌, ◌/◌, ◌%◌, ◌^◌, ◌≤◌, ◌<◌, ◌≡◌, refl, sym, ap, subst, ◌∙◌, ◌≢◌,
  ◌↔◌, ◌⊎◌, inl, inr, Bool, true, false, true≢false, not, ◌&&◌, ◌||◌, Option, none, some, List, [],
  ◌∷◌, ◌++◌, append-nil, append_assoc, arith, ltb, leb, ◌==◌, if◌then◌else◌, lt→ltb, le→ltb, le→leb,
  lt→leb, ==_iff, ==_refl, Bool-cases, if_rule, length, get_or, set, take, drop, replicate, All,
  length-append, length-take, length-drop, length-replicate, length-set, take-append-drop,
  take-append_left, take-append_right, drop-append_right, take_all, get_or-append_left,
  get_or-append_right, get_or-take, get_or-drop, u8, u16, u32, is_negative, is_err, le16, le32,
  bytes16, bytes32, ℤ, pos, min,
}

-- `k_pipe_write`, `k_pipe_read` and `k_pipe_reset`. A write returns how many bytes it has written, or an
-- error; a read also gives the bytes.
pub record PipeApi (P : Type 0) : Type 0 where
  pub k_pipe_write : P → List ℕ → ℤ × P
  pub k_pipe_read : P → ℕ → ℤ × (List ℕ × P)
  pub k_pipe_reset : P → P

-- `contents p` are the bytes in the pipe, the first one written first. A call moves as many bytes as it
-- can; one that fails moves none.
pub record PipeLaws {P : Type 0} (api : PipeApi P) (contents : P → List ℕ) (capacity : ℕ)
    : Type 0 where
  pub write_part :
      (p : P) (bytes : List ℕ) (n : ℕ)
      → (api.k_pipe_write p bytes).0 ≡ pos n
      → (n ≡ min (length bytes) (capacity - length (contents p)))
        × (contents (api.k_pipe_write p bytes).1 ≡ contents p ++ take n bytes)
  pub write_fails :
      (p : P) (bytes : List ℕ)
      → is_negative (api.k_pipe_write p bytes).0 ≡ true
      → contents (api.k_pipe_write p bytes).1 ≡ contents p
  pub within : (p : P) → length (contents p) ≤ capacity
  pub read_part :
      (p : P) (size n : ℕ)
      → (api.k_pipe_read p size).0 ≡ pos n
      → (n ≡ min size (length (contents p)))
        × ((api.k_pipe_read p size).1.0 ≡ take n (contents p))
        × (contents (api.k_pipe_read p size).1.1 ≡ drop n (contents p))
  pub read_fails :
      (p : P) (size : ℕ)
      → is_negative (api.k_pipe_read p size).0 ≡ true
      → contents (api.k_pipe_read p size).1.1 ≡ contents p
  pub read_some :
      (p : P) (size : ℕ) → 0 < length (contents p) → (n : ℕ) × ((api.k_pipe_read p size).0 ≡ pos n)
  pub reset_empties : (p : P) → contents (api.k_pipe_reset p) ≡ []

abbrev pub data_capacity : ℕ
data_capacity = 64

abbrev pub reader_size : ℕ
reader_size = 64

-- How many bytes an `int` result counts.
abbrev pub byte_count : ℤ → ℕ
byte_count (pos n) = n
byte_count _ = 0

-- `buf[n] = '\0'` behind the bytes that were read; `none` is a write beyond the buffer.
abbrev pub terminate : ℕ → List ℕ → Option (List ℕ)
terminate size bytes = if ltb (length bytes) size then some bytes else none

-- Example 1: `pending` is what `k_pipe_write` has still to write of `msg`; `printed` are the bytes that the
-- reader has printed.
pub record Stream (P : Type 0) : Type 0 where
  pub data_pipe : P
  pub count : ℕ
  pub pending : List ℕ
  pub written : List ℕ
  pub printed : List ℕ

-- A turn of `writer_func`: the next text, if the last one is written, or a part of the pending one; an
-- error gives the rest up.
-- `text` is what `snprintf` makes of "Hello-%d".
abbrev pub writer_turn : {P : Type 0} → PipeApi P → (ℕ → List ℕ) → Stream P → Stream P
writer_turn api text s =
    let (n, p) = api.k_pipe_write s.data_pipe s.pending in
    let k = byte_count n in
    if length s.pending == 0
    then record s { count = u32 (s.count + 1); pending = text (u32 (s.count + 1)) }
    else record s {
      data_pipe = p;
      pending = (if is_negative n then [] else drop k s.pending);
      written = s.written ++ take k s.pending;
    }

-- A turn of `reader_func`.
abbrev pub reader_turn : {P : Type 0} → PipeApi P → Stream P → Option (Stream P)
reader_turn api s =
    let (n, (bytes, p)) = api.k_pipe_read s.data_pipe reader_size in
    let t = record s { data_pipe = p } in
    if ltb 0 (byte_count n)
    then Option.map (λ text. record t { printed = s.printed ++ text }) (terminate reader_size bytes)
    else some t

pub data StreamTurn : Type 0 where
  writes reads : StreamTurn

abbrev pub turn :
    {P : Type 0} → PipeApi P → (ℕ → List ℕ) → StreamTurn → Stream P → Option (Stream P)
turn api text writes s = some (writer_turn api text s)
turn api text reads s = reader_turn api s

-- The turns of both threads in an order.
unfoldable pub run_turns :
    {P : Type 0} → PipeApi P → (ℕ → List ℕ) → List StreamTurn → Stream P → Option (Stream P)
run_turns api text [] s = some s
run_turns api text (x ∷ xs) s = turn api text x s >>= run_turns api text xs

abbrev pub cmd_capacity : ℕ
cmd_capacity = 32

abbrev pub cmd_size : ℕ
cmd_size = 8

-- "CMD:START_CONFIGURATION_PROCESS=1"
abbrev pub cmd_text : List ℕ
cmd_text =
    67 ∷ 77 ∷ 68 ∷ 58 ∷ 83 ∷ 84 ∷ 65 ∷ 82 ∷ 84 ∷ 95 ∷ 67 ∷ 79 ∷ 78 ∷ 70 ∷ 73 ∷ 71 ∷ 85 ∷ 82 ∷ 65
    ∷ 84 ∷ 73 ∷ 79 ∷ 78 ∷ 95 ∷ 80 ∷ 82 ∷ 79 ∷ 67 ∷ 69 ∷ 83 ∷ 83 ∷ 61 ∷ 49 ∷ []

-- Example 2: `reset_count` is the local of `cmd_reader_func`.
pub record CmdLine (P : Type 0) : Type 0 where
  pub cmd_pipe : P
  pub reset_count : ℕ

-- A round of `cmd_writer_func`.
abbrev pub cmd_writer_round : {P : Type 0} → PipeApi P → CmdLine P → CmdLine P
cmd_writer_round api s = record s { cmd_pipe = (api.k_pipe_write s.cmd_pipe cmd_text).1 }

-- The end of a round of `cmd_reader_func`.
abbrev pub count_reset : {P : Type 0} → PipeApi P → CmdLine P → CmdLine P
count_reset api s =
    if s.reset_count + 1 == 3
    then record { cmd_pipe = api.k_pipe_reset s.cmd_pipe; reset_count = 0 }
    else record s { reset_count = s.reset_count + 1 }

-- A round of `cmd_reader_func`, with the bytes that it prints.
abbrev pub cmd_reader_round : {P : Type 0} → PipeApi P → CmdLine P → Option (List ℕ × CmdLine P)
cmd_reader_round api s =
    let (n, (bytes, p)) = api.k_pipe_read s.cmd_pipe cmd_size in
    let after = count_reset api (record s { cmd_pipe = p }) in
    if ltb 0 (byte_count n)
    then Option.map (λ text. (text, after)) (terminate cmd_size bytes)
    else some ([], after)
