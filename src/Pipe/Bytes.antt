-- ===== src/Pipe/Bytes.antt =====
-- Example 1: what the reader prints is what the writer has written, in order, until the buffer overruns.
use zephyr_stm32h.Common.{
  ℕ, ◌≡◌, refl, sym, ap, ◌∙◌, ◌⊎◌, inl, inr, true, none, some, List, [], ◌∷◌, ◌++◌, append-nil,
  append_assoc, arith, ltb, ◌==◌, Bool-cases, length, take, drop, length-take, take-append-drop,
  is_negative, ℤ, pos, negsuc,
}
use zephyr_stm32h.Pipe.{
  PipeApi, PipeLaws, data_capacity, reader_size, byte_count, Stream, writer_turn, reader_turn,
  StreamTurn, writes, reads, run_turns,
}

-- What has been written is what has been printed, and then what is in the pipe.
abbrev pub InOrder : {P : Type 0} → (P → List ℕ) → Stream P → Type 0
InOrder contents s = s.written ≡ s.printed ++ contents s.data_pipe

-- A result is a count or an error.
pub result_cases : (z : ℤ) → ((n : ℕ) × (z ≡ pos n)) ⊎ ((is_negative z ≡ true) × (byte_count z ≡ 0))
result_cases (pos n) = inl (n, refl)
result_cases (negsuc n) = inr (refl, refl)

module _ {P : Type 0} {api : PipeApi P} {contents : P → List ℕ}
    (laws : PipeLaws api contents data_capacity) (text : ℕ → List ℕ) where
  -- How the turns can end.
  abbrev pub RunEnd : List StreamTurn → Stream P → Type 0
  RunEnd xs s =
      ((t : Stream P) × (run_turns api text xs s ≡ some t) × InOrder contents t)
      ⊎ ((done : List StreamTurn) × (rest : List StreamTurn) × (u : Stream P) × (xs
            ≡ done ++ reads ∷ rest)
          × (run_turns api text done s ≡ some u)
          × InOrder contents u
          × (length (contents u.data_pipe) ≡ data_capacity)
          × (reader_turn api u ≡ none))

  write_adds :
      (p : P) (bytes : List ℕ)
      → contents (api.k_pipe_write p bytes).1
        ≡ contents p ++ take (byte_count (api.k_pipe_write p bytes).0) bytes
  write_adds p bytes = elim (result_cases (api.k_pipe_write p bytes).0) [
    | inl (n, e) ↦
        (laws.write_part p bytes n e).1 ∙ ap (λ z. contents p ++ take (byte_count z) bytes) (sym e)
    | inr (neg, e) ↦
        laws.write_fails p bytes neg
        ∙ sym (append-nil (contents p))
        ∙ ap (λ (k : ℕ). contents p ++ take k bytes) (sym e)
  ]

  writer_turn-InOrder :
      (s : Stream P) → InOrder contents s → InOrder contents (writer_turn api text s)
  writer_turn-InOrder s h = elim (Bool-cases (length s.pending == 0)) [
    | inl e ↦ rw e h
    | inr e ↦ rw e (
        ap (λ l. l ++ take (byte_count (api.k_pipe_write s.data_pipe s.pending).0) s.pending) h
        ∙ append_assoc s.printed (contents s.data_pipe) _
        ∙ ap (λ l. s.printed ++ l) (sym (write_adds s.data_pipe s.pending)))
  ]

  reader_turn_counted :
      (s : Stream P) (n : ℕ)
      → InOrder contents s
      → (api.k_pipe_read s.data_pipe reader_size).0 ≡ pos n
      → ((t : Stream P) × (reader_turn api s ≡ some t) × InOrder contents t)
        ⊎ ((length (contents s.data_pipe) ≡ data_capacity) × (reader_turn api s ≡ none))
  reader_turn_counted s n h e =
      let old = contents s.data_pipe in
      let (count, bytes, rest) = laws.read_part s.data_pipe reader_size n e in
      let got = (api.k_pipe_read s.data_pipe reader_size).1.0 in
      let p = (api.k_pipe_read s.data_pipe reader_size).1.1 in
      let size = ap length bytes ∙ length-take n old in
      elim (Bool-cases (ltb 0 n)) [
        | inr z ↦
            let nothing : n ≡ 0 = ground (arith, z) in
            inl (
              record s { data_pipe = p },
              rw (e, z) refl,
              h ∙ ap (λ l. s.printed ++ l) (sym (rest ∙ ap (λ (k : ℕ). drop k old) nothing)),
            )
        | inl some_read ↦ elim (Bool-cases (ltb (length got) reader_size)) [
          | inl room ↦ inl (
            record s { data_pipe = p; printed = s.printed ++ got },
            rw (e, some_read, room) refl,
            rw (bytes, rest)
                (h
                  ∙ ap (λ l. s.printed ++ l) (sym (take-append-drop n old))
                  ∙ sym (append_assoc s.printed (take n old) (drop n old))),
          )
          | inr full ↦ inr (
            ground (arith, full, size, count, laws.within s.data_pipe),
            rw (e, some_read, full) refl,
          )
        ]
      ]

  -- The reader's turn keeps the order, or the pipe is full.
  reader_turn_cases :
      (s : Stream P)
      → InOrder contents s
      → ((t : Stream P) × (reader_turn api s ≡ some t) × InOrder contents t)
        ⊎ ((length (contents s.data_pipe) ≡ data_capacity) × (reader_turn api s ≡ none))
  reader_turn_cases s h = elim (result_cases (api.k_pipe_read s.data_pipe reader_size).0) [
    | inl (n, e) ↦ reader_turn_counted s n h e
    | inr (neg, e) ↦ inl (
      record s { data_pipe = (api.k_pipe_read s.data_pipe reader_size).1.1 },
      rw e refl,
      h ∙ ap (λ l. s.printed ++ l) (sym (laws.read_fails s.data_pipe reader_size neg)),
    )
  ]

  run_read :
      (s t : Stream P) (xs : List StreamTurn)
      → reader_turn api s ≡ some t
      → run_turns api text (reads ∷ xs) s ≡ run_turns api text xs t
  unfolding run_turns
  run_read s t xs e = rw e refl

  run_turns_cases : (xs : List StreamTurn) (s : Stream P) → InOrder contents s → RunEnd xs s
  unfolding run_turns
  run_turns_cases [] s h = inl (s, refl, h)
  run_turns_cases (writes ∷ xs) s h =
      elim (run_turns_cases xs (writer_turn api text s) (writer_turn-InOrder s h)) [
        | inl goes ↦ inl goes
        | inr (done, rest, u, e, r, o, full, over) ↦
            inr (writes ∷ done, rest, u, ap (λ l. writes ∷ l) e, r, o, full, over)
      ]
  run_turns_cases (reads ∷ xs) s h = elim (reader_turn_cases s h) [
    | inl (t, e, h') ↦ elim (run_turns_cases xs t h') [
      | inl (u, r, o) ↦ inl (u, run_read s t xs e ∙ r, o)
      | inr (done, rest, u, e', r, o, full, over) ↦
          inr
            (reads ∷ done, rest, u, ap (λ l. reads ∷ l) e', run_read s t done e ∙ r, o, full, over)
    ]
    | inr (full, e) ↦ inr ([], xs, s, refl, refl, h, full, e)
  ]

  -- From an empty pipe, for every order of the turns: either all of them take place, and then the bytes
  -- written are, in order, those that the reader has printed followed by those in the pipe; or after some
  -- of them, and with the bytes in order so far, the pipe is full and the reader, whose turn it is, writes
  -- the terminator beyond its buffer.
  pub bytes_in_order :
      (xs : List StreamTurn) (s : Stream P)
      → contents s.data_pipe ≡ []
      → s.written ≡ []
      → s.printed ≡ []
      → RunEnd xs s
  bytes_in_order xs s e w p = run_turns_cases xs s (rw (e, w, p) refl)
