-- ===== src/PollSignal/Order.antt =====
-- What is executed is what was raised.
use zephyr_stm32h.Common.{
  ℕ, ◌≡◌, refl, sym, ap, subst, ◌∙◌, Bool, true, false, true≢false, List, [], ◌∷◌, ◌++◌, append-nil,
}
use zephyr_stm32h.PollSignal.{
  SignalApi, SignalLaws, WorkerPc, polling, polled, printed, Board, SignalStep, raises_signal,
  polls, prints, resets,
}

pub data SignalRun {S : Type 0} (api : SignalApi S) (value : ℕ → ℕ) (s : Board S)
    : Board S → Type 0 where
  here : SignalRun api value s s
  next :
      {t u : Board S} → SignalRun api value s t → SignalStep api value t u → SignalRun api value s u

-- The first list is the second one, less some of its elements.
pub data Picked : List ℕ → List ℕ → Type 0 where
  nothing : Picked [] []
  left_out : {xs ys : List ℕ} (y : ℕ) → Picked xs ys → Picked xs (ys ++ y ∷ [])
  picked : {xs ys : List ℕ} (y : ℕ) → Picked xs ys → Picked (xs ++ y ∷ []) (ys ++ y ∷ [])

-- The result that waits, if any, by the signal and the worker's place.
abbrev pub waiting_result : Bool → WorkerPc → ℕ → List ℕ
waiting_result false w r = []
waiting_result true printed r = []
waiting_result true _ r = r ∷ []

-- What is raised and neither printed nor lost.
abbrev pub pending : {S : Type 0} → SignalApi S → Board S → List ℕ
pending api s = waiting_result (api.k_poll s.signal) s.worker (api.result s.signal)

-- Each raise finds the signal reset and the worker at `k_poll`.
abbrev pub IsPaced :
    {S : Type 0} {api : SignalApi S} {value : ℕ → ℕ} {s t : Board S}
    → SignalRun api value s t
    → Type 0
IsPaced here = Unit {0}
IsPaced {api = api} (next {t} r raises_signal) =
    IsPaced r × (api.k_poll t.signal ≡ false) × (t.worker ≡ polling)
IsPaced (next r _) = IsPaced r

-- The signal is reset, the worker is at `k_poll`, and nothing is raised or printed.
pub record SignalStart {S : Type 0} (api : SignalApi S) (s : Board S) : Type 0 where
  pub quiet : api.k_poll s.signal ≡ false
  pub worker_polls : s.worker ≡ polling
  pub none_raised : s.raised ≡ []
  pub none_executed : s.executed ≡ []

-- Whether the worker will read the result before it resets the signal.
abbrev is_open : WorkerPc → Bool
is_open printed = false
is_open _ = true

abbrev is_polled : WorkerPc → Bool
is_polled polled = true
is_polled _ = false

record SignalOk {S : Type 0} (api : SignalApi S) (s : Board S) : Type 0 where
  base : Picked s.executed s.raised
  ahead :
      api.k_poll s.signal ≡ true
      → is_open s.worker ≡ true
      → Picked (s.executed ++ api.result s.signal ∷ []) s.raised
  signaled : is_polled s.worker ≡ true → api.k_poll s.signal ≡ true

waiting_printed : (b : Bool) (r : ℕ) → waiting_result b printed r ≡ []
waiting_printed true r = refl
waiting_printed false r = refl

SignalStart-SignalOk :
    {S : Type 0} {api : SignalApi S} {s : Board S} → SignalStart api s → SignalOk api s
SignalStart-SignalOk {s} start = record {
  base = rw (start.none_executed, start.none_raised) nothing;
  ahead = λ a b. absurd (true≢false (sym a ∙ start.quiet));
  signaled = λ a. absurd (true≢false (sym a ∙ ap is_polled start.worker_polls));
}

module _ {S : Type 0} {api : SignalApi S} {value : ℕ → ℕ} (laws : SignalLaws api) where
  SignalStep-SignalOk : {s t : Board S} → SignalStep api value s t → SignalOk api s → SignalOk api t
  SignalStep-SignalOk {s} raises_signal ok =
      let v = value s.raises in
      record {
        base = left_out v ok.base;
        ahead = λ a b.
            subst (λ r. Picked (s.executed ++ r ∷ []) (s.raised ++ v ∷ []))
              (sym (laws.raise_result s.signal v)) (picked v ok.base);
        signaled = λ a. laws.raise_signals s.signal v;
      }
  SignalStep-SignalOk {s} (polls e k) ok = record {
    base = ok.base;
    ahead = λ a b. ok.ahead a (ap is_open e);
    signaled = λ a. k;
  }
  SignalStep-SignalOk {s} (prints e) ok = record {
    base = ok.ahead (ok.signaled (ap is_polled e)) (ap is_open e);
    ahead = λ a b. absurd (true≢false (sym b));
    signaled = λ a. absurd (true≢false (sym a));
  }
  SignalStep-SignalOk {s} (resets e) ok = record {
    base = ok.base;
    ahead = λ a b. absurd (true≢false (sym a ∙ laws.reset_clears s.signal));
    signaled = λ a. absurd (true≢false (sym a));
  }

  SignalRun-SignalOk : {s t : Board S} → SignalOk api s → SignalRun api value s t → SignalOk api t
  SignalRun-SignalOk ok here = ok
  SignalRun-SignalOk ok (next r st) = SignalStep-SignalOk st (SignalRun-SignalOk ok r)

  -- From a signal that is reset, whatever the interleaving: the results that the worker has printed are
  -- results that were raised, in their order, and none is printed twice for one raise.
  pub executed_was_raised :
      (s t : Board S) → SignalStart api s → SignalRun api value s t → Picked t.executed t.raised
  executed_was_raised s t start r = (SignalRun-SignalOk (SignalStart-SignalOk start) r).base

  SignalRun-paced :
      {s t : Board S}
      → SignalStart api s
      → (r : SignalRun api value s t) → IsPaced r
      → t.raised ≡ t.executed ++ pending api t
  SignalRun-paced {s} start here h = rw (start.none_executed, start.none_raised, start.quiet) refl
  SignalRun-paced {s} start (next {t} r raises_signal) (h, quiet, w) =
      let v = value t.raises in
      let none_waits : pending api t ≡ [] = rw quiet refl in
      rw (w, laws.raise_signals t.signal v, laws.raise_result t.signal v)
        (ap (λ l. l ++ v ∷ [])
          (SignalRun-paced start r h
            ∙ ap (λ l. t.executed ++ l) none_waits
            ∙ append-nil t.executed))
  SignalRun-paced {s} start (next {t} r (polls e k)) h =
      SignalRun-paced start r h
      ∙ ap (λ w. t.executed ++ waiting_result (api.k_poll t.signal) w (api.result t.signal)) e
      ∙ rw k refl
  SignalRun-paced {s} start (next {t} r (prints e)) h =
      let ok = SignalRun-SignalOk (SignalStart-SignalOk start) r in
      let k = ok.signaled (ap is_polled e) in
      let one : pending api t ≡ api.result t.signal ∷ [] = rw (k, e) refl in
      SignalRun-paced start r h
      ∙ ap (λ l. t.executed ++ l) one
      ∙ sym (append-nil _)
      ∙ ap (λ l. (t.executed ++ api.result t.signal ∷ []) ++ l)
          (sym (waiting_printed (api.k_poll t.signal) (api.result t.signal)))
  SignalRun-paced {s} start (next {t} r (resets e)) h =
      let none_waits : pending api t ≡ [] =
        ap (λ w. waiting_result (api.k_poll t.signal) w (api.result t.signal)) e
        ∙ waiting_printed (api.k_poll t.signal) (api.result t.signal) in
      SignalRun-paced start r h
      ∙ ap (λ l. t.executed ++ l) none_waits
      ∙ rw (laws.reset_clears t.signal) refl

  -- From a signal that is reset, if each raise finds the signal reset and the worker at `k_poll`, as the
  -- commander's delays are to ensure, then whatever the interleaving else, the results that were raised
  -- are, in order, those that the worker has printed, and the one that waits, if any.
  pub paced_loses_nothing :
      (s t : Board S)
      → SignalStart api s
      → (r : SignalRun api value s t) → IsPaced r
      → t.raised ≡ t.executed ++ pending api t
  paced_loses_nothing s t start r h = SignalRun-paced start r h
