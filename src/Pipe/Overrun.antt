-- ===== src/Pipe/Overrun.antt =====
-- Example 2: the terminator behind eight bytes.
use zephyr_stm32h.Common.{
  ℕ, ◌≤◌, ◌≡◌, refl, ap, ◌∙◌, true, false, none, List, [], arith, ltb, length, take, length-take,
  pos,
}
use zephyr_stm32h.Pipe.{
  PipeApi, PipeLaws, cmd_capacity, cmd_size, cmd_text, CmdLine, cmd_writer_round, cmd_reader_round,
}

module _ {P : Type 0} {api : PipeApi P} {contents : P → List ℕ}
    (laws : PipeLaws api contents cmd_capacity) where
  -- While the pipe holds eight bytes or more, a round of the reader writes beyond its buffer.
  cmd_reader_overruns :
      (s : CmdLine P) → cmd_size ≤ length (contents s.cmd_pipe) → cmd_reader_round api s ≡ none
  cmd_reader_overruns s h =
      let (n, e) = laws.read_some s.cmd_pipe cmd_size (omega (arith, h)) in
      let (count, bytes, rest) = laws.read_part s.cmd_pipe cmd_size n e in
      let positive : ltb 0 n ≡ true = ground (arith, count, h) in
      let full : ltb (length (api.k_pipe_read s.cmd_pipe cmd_size).1.0) cmd_size ≡ false =
        ground (arith, count, h, ap length bytes, length-take n (contents s.cmd_pipe)) in
      rw (e, positive, full) refl

  -- From an empty pipe, if the writer's round writes anything at all, it writes the first 32 of the 33
  -- bytes of the command, and the reader's next round writes the terminator beyond its buffer.
  pub first_command_overruns :
      (s : CmdLine P) (n : ℕ)
      → contents s.cmd_pipe ≡ []
      → (api.k_pipe_write s.cmd_pipe cmd_text).0 ≡ pos n
      → (n ≡ 32)
        × (contents (cmd_writer_round api s).cmd_pipe ≡ take 32 cmd_text)
        × (cmd_reader_round api (cmd_writer_round api s) ≡ none)
  first_command_overruns s n empty e =
      let (count, adds) = laws.write_part s.cmd_pipe cmd_text n e in
      let all : n ≡ 32 = omega (arith, count, ap length empty) in
      let now : contents (cmd_writer_round api s).cmd_pipe ≡ take 32 cmd_text =
        adds ∙ rw (empty, all) refl in
      (all, now, cmd_reader_overruns (cmd_writer_round api s) (omega (arith, ap length now)))
