-- ===== src/Ethernet/Line.antt =====
-- The line that is typed, and the buffer that it shares with `recv`.
use zephyr_stm32h.Common.{
  ℕ, zero, suc, ◌≤◌, ◌≡◌, refl, sym, ap, ◌∙◌, inl, inr, Bool, true, true≢false, not, ◌||◌, List, [],
  ◌∷◌, ◌++◌, arith, ◌==◌, Bool-cases, if_rule, length, take, drop, All, length-append, length-take,
  length-drop, length-set, u8, is_negative, ℤ, pos, negsuc,
}
use zephyr_stm32h.Ethernet.{
  inc, dec, is_positive, is_below, store, Client, Received, end_line, rub_out, type_char, receive,
  receive_result, handle_client, start_server, Visit, refused, accepted, ServerCall, handled,
  closed, serve,
}

-- An index from 0 to 1023.
abbrev pub Inside : ℤ → Type 0
Inside (pos n) = n ≤ 1023
Inside (negsuc n) = ⊥

pub record ClientOk (s : Client) : Type 0 where
  pub size : length s.buf ≡ 1024
  pub inside : Inside s.idx

-- What `recv` promises of a buffer of 1023 bytes.
abbrev pub FitsBuffer : ℤ → List ℕ → Type 0
FitsBuffer (pos n) bytes = (n ≤ 1023) × (n ≤ length bytes)
FitsBuffer (negsuc n) bytes = Unit {0}

length-store : (buf : List ℕ) (i : ℤ) (v : ℕ) → length (store buf i v) ≡ length buf
length-store buf (pos n) v = length-set buf n v
length-store buf (negsuc n) v = refl

dec-Inside : (i : ℤ) → is_positive i ≡ true → Inside i → Inside (dec i)
dec-Inside (pos zero) p h = absurd (true≢false (sym p))
dec-Inside (pos (suc n)) p h = omega (arith, h)
dec-Inside (negsuc n) p h = h

inc-Inside : (i : ℤ) → is_below i 1023 ≡ true → Inside i → Inside (inc i)
inc-Inside (pos n) p h = ground (arith, p)
inc-Inside (negsuc n) p h = absurd h

end_line-ClientOk : (s : Client) → ClientOk s → ClientOk (end_line s)
unfolding end_line
end_line-ClientOk s ok =
    if_rule ClientOk (is_positive s.idx)
      (record { size = length-store s.buf s.idx 10 ∙ ok.size; inside = omega arith })
      (record { size = ok.size; inside = ok.inside })

rub_out-ClientOk : (s : Client) → ClientOk s → ClientOk (rub_out s)
unfolding rub_out
rub_out-ClientOk s ok = elim (Bool-cases (is_positive s.idx)) [
  | inl some_typed ↦
      rw some_typed (record { size = ok.size; inside = dec-Inside s.idx some_typed ok.inside })
  | inr none_typed ↦ rw none_typed ok
]

type_char-ClientOk : (c : ℤ) (s : Client) → ClientOk s → ClientOk (type_char c s)
unfolding type_char
type_char-ClientOk (negsuc c) s ok = ok
type_char-ClientOk (pos c) s ok = if_rule ClientOk (c == 13 || c == 10) (end_line-ClientOk s ok) (
    if_rule ClientOk (c == 8 || c == 0x7f) (rub_out-ClientOk s ok)
      (elim (Bool-cases (is_below s.idx 1023)) [
        | inl room ↦ rw room (record {
          size = length-store s.buf s.idx (u8 c) ∙ ok.size;
          inside = inc-Inside s.idx room ok.inside;
        })
        | inr full ↦ rw full ok
      ]))

receive_result-ClientOk :
    (ret : ℤ) (bytes : List ℕ) (is_eagain : Bool) (s : Client)
    → FitsBuffer ret bytes
    → ClientOk s
    → ClientOk (receive_result ret bytes is_eagain s).0
unfolding receive_result
receive_result-ClientOk (pos zero) bytes is_eagain s h ok = ok
receive_result-ClientOk (negsuc n) bytes is_eagain s h ok = ok
receive_result-ClientOk (pos (suc n)) bytes is_eagain s h ok = record {
  size = omega (
    arith,
    length-set (take (suc n) bytes ++ drop (suc n) s.buf) (suc n) 0,
    length-append (take (suc n) bytes) (drop (suc n) s.buf),
    length-take (suc n) bytes,
    length-drop (suc n) s.buf,
    ok.size,
    h,
  );
  inside = ok.inside;
}

-- Whatever is typed and received, if each message fits 1023 bytes, the index stays from 0 to 1023 in the buffer of 1024 bytes, so that the newline of a line and the
-- terminator of a message are written inside of it.
pub handle_client-ClientOk :
    (rounds : List (ℤ × Received)) (s : Client)
    → All (λ x. FitsBuffer x.1.ret x.1.bytes) rounds
    → ClientOk s
    → ClientOk (handle_client rounds s)
unfolding handle_client receive
handle_client-ClientOk [] s h ok = ok
handle_client-ClientOk ((c, r) ∷ rounds) s h ok =
    let next : ClientOk (receive r (type_char c s)).0 =
      receive_result-ClientOk r.ret r.bytes r.is_eagain (type_char c s) h.0
        (type_char-ClientOk c s ok) in
    if_rule ClientOk (receive r (type_char c s)).1
      (handle_client-ClientOk rounds (receive r (type_char c s)).0 h.1 next) next

-- A socket is left open exactly if `start_server` returns it; on every error it is closed, or there is
-- none, and the result is negative.
pub start_server_open :
    (serv bound listening : ℤ)
    → (start_server serv bound listening).1
      ≡ not (is_negative (start_server serv bound listening).0)
unfolding start_server
start_server_open serv bound listening =
    let Q : ℤ × Bool → Type 0 = λ r. r.1 ≡ not (is_negative r.0) in
    elim (Bool-cases (is_negative serv)) [
      | inl bad ↦ rw bad refl
      | inr good ↦ rw good (
          if_rule Q (is_negative bound) refl
            (if_rule Q (is_negative listening) refl (sym (ap not good))))
    ]

-- The sockets that a run closes, in order.
abbrev closed_by : List ServerCall → List ℕ
closed_by [] = []
closed_by (closed client ∷ calls) = client ∷ closed_by calls
closed_by (handled outputs ∷ calls) = closed_by calls

abbrev accepted_by : List Visit → List ℕ
accepted_by [] = []
accepted_by (refused ∷ visits) = accepted_by visits
accepted_by (accepted client buf rounds ∷ visits) = client ∷ accepted_by visits

-- Each client that `accept` gives is closed once, in order, whatever it sends, and nothing else is.
serve_closes : (visits : List Visit) → closed_by (serve visits) ≡ accepted_by visits
unfolding serve
serve_closes [] = refl
serve_closes (refused ∷ visits) = serve_closes visits
serve_closes (accepted client buf rounds ∷ visits) = ap (λ cs. client ∷ cs) (serve_closes visits)
