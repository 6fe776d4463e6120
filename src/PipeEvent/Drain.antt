-- ===== src/PipeEvent/Drain.antt =====
-- The reading loop of src/network/net/PipeEvent.cpp.
use tmms.Common.{
  ℕ, zero, suc, ◌+◌, ◌<◌, ◌≡◌, refl, ap, ◌∙◌, subst, ◌⊎◌, inl, inr, true, false, none, some, arith,
}
use tmms.PipeEvent.{
  ReadAnswer, got, end_of_file, again, failed, Pipe, PipeEvent, on_error, on_read, read_turn,
}
use tmms.PipeEvent.Pipes.{IsPipe}

module _ (P : Pipe) (pipe : IsPipe P) where
  -- What `OnRead` leaves: the end for writing open, and an empty pipe unless an error was logged.
  abbrev pub Drained : PipeEvent → PipeEvent × P.State → Type 0
  Drained e (e', s') =
      (e'.write_open ≡ e.write_open)
      × (P.has_writer s' ≡ true)
      × (((e'.errors ≡ e.errors) × (P.is_readable s' ≡ false)) ⊎ (e'.errors ≡ e.errors + 1))

  abbrev pub Returns : ℕ → PipeEvent → P.State → Type 0
  Returns rounds e s = (r : PipeEvent × P.State) × (on_read P rounds e s ≡ some r) × Drained e r

  pub on_read-Returns :
      (rounds : ℕ) (e : PipeEvent) (s : P.State)
      → P.has_writer s ≡ true
      → P.held s < rounds
      → Returns rounds e s
  unfolding on_read read_turn on_error
  on_read-Returns zero e s w few = absurd (omega arith)
  on_read-Returns (suc rounds) e s w few =
      answered (P.read s).0 refl
        (λ less. on_read-Returns rounds e (P.read s).1 (pipe.writer-read s ∙ w) (omega arith))
    where
      turned :
          {a : ReadAnswer}
          → (P.read s).0 ≡ a
          → on_read P (suc rounds) e s
            ≡ read_turn P (on_read P rounds e (P.read s).1) a e (P.read s).1
      turned h = ap (λ a. read_turn P (on_read P rounds e (P.read s).1) a e (P.read s).1) h

      answered :
          (a : ReadAnswer)
          → (P.read s).0 ≡ a
          → (P.held (P.read s).1 < P.held s → Returns rounds e (P.read s).1)
          → Returns (suc rounds) e s
      answered (got n) h rest =
          let (r, run, drained) = rest (pipe.fewer n s h) in (r, turned h ∙ run, drained)
      answered end_of_file h rest = absurd (pipe.no_end s w h)
      answered again h rest =
          ((e, (P.read s).1), turned h, (refl, pipe.writer-read s ∙ w, inl (refl, pipe.empty s h)))
      answered failed h rest =
          ((on_error e, (P.read s).1), turned h, (refl, pipe.writer-read s ∙ w, inr refl))

  -- However many rounds it takes, `OnRead` does not close the end for writing.
  pub on_read-Open :
      (rounds : ℕ) (e : PipeEvent) (s : P.State) (r : PipeEvent × P.State)
      → P.has_writer s ≡ true
      → on_read P rounds e s ≡ some r
      → (r.0.write_open ≡ e.write_open) × (P.has_writer r.1 ≡ true)
  unfolding on_read read_turn on_error
  on_read-Open zero e s r w h = absurd (ground (arith, h))
  on_read-Open (suc rounds) e s r w h =
      answered (P.read s).0 refl h
        (λ next. on_read-Open rounds e (P.read s).1 r (pipe.writer-read s ∙ w) next)
    where
      kept : P.has_writer (P.read s).1 ≡ true
      kept = pipe.writer-read s ∙ w

      is_result :
          (q : PipeEvent × P.State)
          → some q ≡ some r
          → (q.0.write_open ≡ e.write_open) × (P.has_writer q.1 ≡ true)
          → (r.0.write_open ≡ e.write_open) × (P.has_writer r.1 ≡ true)
      is_result q h good =
          subst (λ q. (q.0.write_open ≡ e.write_open) × (P.has_writer q.1 ≡ true))
            (ap (λ o. elim o [ none ↦ q | some x ↦ x ]) h) good

      answered :
          (a : ReadAnswer)
          → (P.read s).0 ≡ a
          → read_turn P (on_read P rounds e (P.read s).1) a e (P.read s).1 ≡ some r
          → (on_read P rounds e (P.read s).1 ≡ some r
              → (r.0.write_open ≡ e.write_open) × (P.has_writer r.1 ≡ true))
          → (r.0.write_open ≡ e.write_open) × (P.has_writer r.1 ≡ true)
      answered (got n) g h rest = rest h
      answered end_of_file g h rest = absurd (pipe.no_end s w g)
      answered again g h rest = is_result (e, (P.read s).1) h (refl, kept)
      answered failed g h rest = is_result (on_error e, (P.read s).1) h (refl, kept)

-- On a pipe whose end for writing is open, `OnRead` returns after at most one round more than the
-- pipe holds bytes. It leaves that end open, and the pipe empty unless it logged an error.
pub on_read_returns :
    (P : Pipe) (pipe : IsPipe P) (e : PipeEvent) (s : P.State)
    → P.has_writer s ≡ true
    → (r : PipeEvent × P.State) × (on_read P (P.held s + 1) e s ≡ some r) × Drained P pipe e r
on_read_returns P pipe e s w = on_read-Returns P pipe (P.held s + 1) e s w (omega arith)
