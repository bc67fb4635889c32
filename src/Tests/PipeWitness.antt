-- ===== src/Tests/PipeWitness.antt =====
-- The theorems on the pipes at concrete inputs, with a pipe in memory.
use zephyr_stm32h.Common.{
  ℕ, ◌-◌, ◌≤◌, ◌≡◌, refl, sym, ap, ◌⊎◌, true≢false, none, some, List, [], ◌∷◌, ◌++◌, arith, length,
  take, drop, length-append, length-take, length-drop, ℤ, pos, min,
}
use zephyr_stm32h.Pipe.{
  PipeApi, PipeLaws, data_capacity, cmd_capacity, byte_count, Stream, reader_turn, StreamTurn,
  writes, reads, run_turns, CmdLine,
}
use zephyr_stm32h.Pipe.Bytes.{InOrder, bytes_in_order}

-- What is in the pipe, never more than its capacity.
abbrev Bounded : ℕ → Type 0
Bounded capacity = (bytes : List ℕ) × (length bytes ≤ capacity)

-- How many bytes a write moves.
abbrev moved : (capacity : ℕ) → List ℕ → List ℕ → ℕ
moved capacity old bytes = min (length bytes) (capacity - length old)

toy_room :
    (capacity : ℕ) (old bytes : List ℕ)
    → length old ≤ capacity
    → length (old ++ take (moved capacity old bytes) bytes) ≤ capacity
toy_room capacity old bytes h = omega (
  arith,
  length-append old (take (moved capacity old bytes) bytes),
  length-take (moved capacity old bytes) bytes,
)

abbrev toy_write : (capacity : ℕ) → Bounded capacity → List ℕ → ℤ × Bounded capacity
toy_write capacity p bytes = (
  pos (moved capacity p.0 bytes),
  (p.0 ++ take (moved capacity p.0 bytes) bytes, toy_room capacity p.0 bytes p.1),
)

abbrev toy_read : (capacity : ℕ) → Bounded capacity → ℕ → ℤ × (List ℕ × Bounded capacity)
toy_read capacity p size =
    let n = min size (length p.0) in
    (pos n, (take n p.0, (drop n p.0, omega (arith, p.1, length-drop n p.0))))

abbrev toy_pipe : (capacity : ℕ) → PipeApi (Bounded capacity)
toy_pipe capacity = record {
  k_pipe_write = toy_write capacity;
  k_pipe_read = toy_read capacity;
  k_pipe_reset = λ p. ([], omega arith);
}

pos_inj : (m n : ℕ) → pos m ≡ pos n → m ≡ n
pos_inj m n e = ap byte_count e

toy_pipe_laws : (capacity : ℕ) → PipeLaws (toy_pipe capacity) (λ p. p.0) capacity
toy_pipe_laws capacity = record {
  write_part =
      λ p bytes n e. let m = pos_inj _ n e in (sym m, ap (λ (k : ℕ). p.0 ++ take k bytes) m);
  write_fails = λ p bytes e. absurd (true≢false (sym e));
  within = λ p. p.1;
  read_part = λ p size n e.
      let m = pos_inj _ n e in (sym m, ap (λ (k : ℕ). take k p.0) m, ap (λ (k : ℕ). drop k p.0) m);
  read_fails = λ p size e. absurd (true≢false (sym e));
  read_some = λ p size h. (min size (length p.0), refl);
  reset_empties = λ p. refl;
}

-- The number, in place of the text.
abbrev toy_text : ℕ → List ℕ
toy_text n = n ∷ []

abbrev empty_stream : Stream (Bounded data_capacity)
empty_stream = record {
  data_pipe = ([], omega arith);
  count = 0;
  pending = [];
  written = [];
  printed = [];
}

abbrev some_turns : List StreamTurn
some_turns = writes ∷ writes ∷ reads ∷ writes ∷ writes ∷ []

bytes_in_order_example :
    ((t : Stream (Bounded data_capacity)) × (run_turns
          (toy_pipe data_capacity)
          toy_text
          some_turns
          empty_stream
        ≡ some t)
      × InOrder (λ p. p.0) t)
    ⊎ ((done : List StreamTurn) × (rest : List StreamTurn) × (u : Stream (Bounded data_capacity))
        × (some_turns ≡ done ++ reads ∷ rest)
        × (run_turns (toy_pipe data_capacity) toy_text done empty_stream ≡ some u)
        × InOrder (λ p. p.0) u
        × (length u.data_pipe.0 ≡ data_capacity)
        × (reader_turn (toy_pipe data_capacity) u ≡ none))
bytes_in_order_example =
    bytes_in_order (toy_pipe_laws data_capacity) toy_text some_turns empty_stream refl refl refl

abbrev empty_line : CmdLine (Bounded cmd_capacity)
empty_line = record { cmd_pipe = ([], omega arith); reset_count = 0 }

abbrev written_bytes : ℕ
written_bytes = 32
