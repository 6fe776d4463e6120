-- ===== src/PipeEvent/Pipes.antt =====
-- What pipe(7) says of the calls of src/network/net/PipeEvent.cpp, and a pipe in memory.
use tmms.Common.{ℕ, zero, suc, ◌<◌, ◌≡◌, refl, ◌≢◌, Bool, true, false, arith}
use tmms.PipeEvent.{ReadAnswer, got, end_of_file, again, WriteAnswer, taken, full, Pipe}

pub record IsPipe (P : Pipe) : Type 0 where
  pub writer-pipe2 : P.has_writer P.pipe2 ≡ true
  -- Bytes are in the pipe after a write, also one that found it full.
  pub readable-write : (s : P.State) → P.has_writer s ≡ true → P.is_readable (P.write s).1 ≡ true
  pub writer-write : (s : P.State) → P.has_writer (P.write s).1 ≡ P.has_writer s
  pub writer-read : (s : P.State) → P.has_writer (P.read s).1 ≡ P.has_writer s
  -- The end of the file comes only when no end for writing is open.
  pub no_end : (s : P.State) → P.has_writer s ≡ true → (P.read s).0 ≢ end_of_file
  pub fewer : (n : ℕ) (s : P.State) → (P.read s).0 ≡ got n → P.held (P.read s).1 < P.held s
  pub empty : (s : P.State) → (P.read s).0 ≡ again → P.is_readable (P.read s).1 ≡ false

-- A pipe with room for three numbers: how many it holds, and whether it has a writer.
abbrev taken_from : ℕ × Bool → ReadAnswer × (ℕ × Bool)
taken_from (zero, true) = (again, (zero, true))
taken_from (zero, false) = (end_of_file, (zero, false))
taken_from (suc n, b) = (got 8, (n, b))

abbrev put_into : ℕ × Bool → WriteAnswer × (ℕ × Bool)
put_into (zero, b) = (taken, (1, b))
put_into (suc zero, b) = (taken, (2, b))
put_into (suc (suc zero), b) = (taken, (3, b))
put_into (suc (suc (suc n)), b) = (full, (suc (suc (suc n)), b))

abbrev is_filled : ℕ × Bool → Bool
is_filled (zero, true) = false
is_filled (zero, false) = true
is_filled (suc n, b) = true

abbrev pub small : Pipe
small = record {
  State = ℕ × Bool;
  pipe2 = (0, true);
  read = taken_from;
  write = put_into;
  close_write = λ s. (s.0, false);
  is_readable = is_filled;
  has_writer = λ s. s.1;
  held = λ s. s.0;
}

pub small-IsPipe : IsPipe small
small-IsPipe = record {
  writer-pipe2 = refl;
  readable-write = write_fills;
  writer-write = write_keeps;
  writer-read = read_keeps;
  no_end = read_goes;
  fewer = read_takes;
  empty = read_empties;
}
  where
    write_fills : (s : ℕ × Bool) → s.1 ≡ true → is_filled (put_into s).1 ≡ true
    write_fills (zero, b) h = refl
    write_fills (suc zero, b) h = refl
    write_fills (suc (suc zero), b) h = refl
    write_fills (suc (suc (suc n)), b) h = refl

    write_keeps : (s : ℕ × Bool) → (put_into s).1.1 ≡ s.1
    write_keeps (zero, b) = refl
    write_keeps (suc zero, b) = refl
    write_keeps (suc (suc zero), b) = refl
    write_keeps (suc (suc (suc n)), b) = refl

    read_keeps : (s : ℕ × Bool) → (taken_from s).1.1 ≡ s.1
    read_keeps (zero, true) = refl
    read_keeps (zero, false) = refl
    read_keeps (suc n, b) = refl

    read_goes : (s : ℕ × Bool) → s.1 ≡ true → (taken_from s).0 ≢ end_of_file
    read_goes (zero, true) h e = ground arith
    read_goes (zero, false) h e = ground arith
    read_goes (suc n, b) h e = ground arith

    read_takes : (n : ℕ) (s : ℕ × Bool) → (taken_from s).0 ≡ got n → (taken_from s).1.0 < s.0
    read_takes k (zero, true) e = ground arith
    read_takes k (zero, false) e = ground arith
    read_takes k (suc n, b) e = omega arith

    read_empties : (s : ℕ × Bool) → (taken_from s).0 ≡ again → is_filled (taken_from s).1 ≡ false
    read_empties (zero, true) e = refl
    read_empties (zero, false) e = ground arith
    read_empties (suc n, b) e = ground arith
