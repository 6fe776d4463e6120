-- ===== src/Logger/Lines.antt =====
-- The lines that src/base/LogStream.cpp makes, and their times.
use tmms.Common.{
  ℕ, zero, suc, ◌+◌, ◌-◌, ◌*◌, ◌/◌, ◌%◌, ◌≤◌, ◌<◌, ◌≡◌, refl, ap, ap₂, ◌∙◌, inl, inr, List, [], ◌∷◌,
  ◌++◌, arith, ltb, Bool-cases, length, drop, take, replicate, append_assoc,
}
use tmms.InetAddress.{digits, to_string, value}
use tmms.InetAddress.Ports.{step-value, value-digits}
use tmms.FileMgr.{padded}
use tmms.Logger.{
  LogLevel, trace, debug, info, warn, error, Macro, Place, level_of, function_of, line_start,
  log_line, log_string, base_name, func_text, LocalTime, iso_time,
}

-- A number of less than ten, and a larger one.
digits-one : (fuel n : ℕ) (acc : List ℕ) → n < 10 → digits fuel n acc ≡ (48 + n) ∷ acc
unfolding digits
digits-one zero n acc h = refl
digits-one (suc fuel) n acc h = ground arith

digits-more :
    (fuel n : ℕ) (acc : List ℕ)
    → 10 ≤ n
    → digits (suc fuel) n acc ≡ digits fuel (n / 10) ((48 + n % 10) ∷ acc)
unfolding digits
digits-more fuel n acc h = ground arith

to_string-two : (n : ℕ) → 10 ≤ n → n < 100 → to_string n ≡ (48 + n / 10) ∷ (48 + n % 10) ∷ []
to_string-two zero l h = absurd (omega arith)
to_string-two (suc f) l h =
    digits-more f (suc f) [] l ∙ digits-one f (suc f / 10) ((48 + suc f % 10) ∷ []) (omega arith)

abbrev two : ℕ → List ℕ
two n = (48 + n / 10) ∷ (48 + n % 10) ∷ []

abbrev four : ℕ → List ℕ
four n = (48 + n / 10 / 10 / 10) ∷ (48 + n / 10 / 10 % 10) ∷ (48 + n / 10 % 10) ∷ (48 + n % 10) ∷ []

two_digits : (n : ℕ) → n < 100 → padded 48 2 n ≡ two n
two_digits n h = elim (Bool-cases (ltb n 10)) [
  | inl small ↦
      let tens : 48 ≡ 48 + n / 10 = ground arith in
      let ones : 48 + n ≡ 48 + n % 10 = ground arith in
      ap (λ t. replicate (2 - length t) 48 ++ t) (digits-one n n [] (ground arith))
      ∙ ap₂ (λ a b. a ∷ b ∷ []) tens ones
  | inr large ↦ ap (λ t. replicate (2 - length t) 48 ++ t) (to_string-two n (ground arith) h)
]

to_string-four : (n : ℕ) → 1000 ≤ n → n < 10000 → to_string n ≡ four n
to_string-four zero l h = absurd (omega arith)
to_string-four (suc zero) l h = absurd (omega arith)
to_string-four (suc (suc zero)) l h = absurd (omega arith)
to_string-four (suc (suc (suc f))) l h =
    let n : ℕ = suc (suc (suc f)) in
    digits-more (suc (suc f)) n [] (omega arith)
    ∙ digits-more (suc f) (n / 10) ((48 + n % 10) ∷ []) (omega arith)
    ∙ digits-more f (n / 10 / 10) ((48 + n / 10 % 10) ∷ (48 + n % 10) ∷ []) (omega arith)
    ∙ digits-one f (n / 10 / 10 / 10)
        ((48 + n / 10 / 10 % 10) ∷ (48 + n / 10 % 10) ∷ (48 + n % 10) ∷ []) (omega arith)

four_digits : (n : ℕ) → 1000 ≤ n → n < 10000 → padded 32 4 n ≡ four n
four_digits n l h = ap (λ t. replicate (4 - length t) 32 ++ t) (to_string-four n l h)

value-two : (n : ℕ) → n < 100 → value 0 (two n) ≡ n
unfolding value
value-two n h =
    step-value 0 (n / 10) ((48 + n % 10) ∷ []) (omega arith)
    ∙ step-value (0 * 10 + n / 10) (n % 10) [] (omega arith)
    ∙ omega arith

value-four : (n : ℕ) → n < 10000 → value 0 (four n) ≡ n
unfolding value
value-four n h =
    step-value 0 (n / 10 / 10 / 10)
      ((48 + n / 10 / 10 % 10) ∷ (48 + n / 10 % 10) ∷ (48 + n % 10) ∷ []) (omega arith)
    ∙ step-value (0 * 10 + n / 10 / 10 / 10) (n / 10 / 10 % 10)
        ((48 + n / 10 % 10) ∷ (48 + n % 10) ∷ []) (omega arith)
    ∙ step-value ((0 * 10 + n / 10 / 10 / 10) * 10 + n / 10 / 10 % 10) (n / 10 % 10)
        ((48 + n % 10) ∷ []) (omega arith)
    ∙ step-value (((0 * 10 + n / 10 / 10 / 10) * 10 + n / 10 / 10 % 10) * 10 + n / 10 % 10) (n % 10)
        [] (omega arith)
    ∙ omega arith

digits-append :
    (fuel n : ℕ) (acc rest : List ℕ) → digits fuel n acc ++ rest ≡ digits fuel n (acc ++ rest)
unfolding digits
digits-append zero n acc rest = refl
digits-append (suc fuel) n acc rest =
    ground (arith, digits-append fuel (n / 10) ((48 + n % 10) ∷ acc) rest)

value-blank : (n : ℕ) (rest : List ℕ) → value n (32 ∷ rest) ≡ n
unfolding value
value-blank n rest = refl

-- A number that a blank follows is read back.
value-to_string : (n : ℕ) (rest : List ℕ) → value 0 (to_string n ++ (32 ∷ rest)) ≡ n
value-to_string n rest =
    ap (value 0) (digits-append n n [] (32 ∷ rest))
    ∙ value-digits n n (32 ∷ rest) (omega arith)
    ∙ value-blank n rest

-- The digits of a time.
abbrev stamp : List ℕ → List ℕ → List ℕ → List ℕ → List ℕ → List ℕ → List ℕ
stamp y mo d h mi s = y ++ (45 ∷ mo) ++ (45 ∷ d) ++ (84 ∷ h) ++ (58 ∷ mi) ++ (58 ∷ s)

-- The number in `width` characters from `first` on.
pub field : ℕ → ℕ → List ℕ → ℕ
unfolding value
field first width text = value 0 (take width (drop first text))

pub read_iso_time : List ℕ → LocalTime
unfolding field
read_iso_time text = record {
  year = field 0 4 text;
  month = field 5 2 text;
  day = field 8 2 text;
  hour = field 11 2 text;
  minute = field 14 2 text;
  second = field 17 2 text;
}

-- Four digits of the year, and two of the others.
pub record IsTime (t : LocalTime) : Type 0 where
  pub year_from : 1000 ≤ t.year
  pub year_to : t.year < 10000
  pub month_to : t.month < 100
  pub day_to : t.day < 100
  pub hour_to : t.hour < 100
  pub minute_to : t.minute < 100
  pub second_to : t.second < 100

iso_time-stamp :
    (t : LocalTime)
    → IsTime t
    → iso_time t
      ≡ stamp (four t.year) (two t.month) (two t.day) (two t.hour) (two t.minute) (two t.second)
unfolding iso_time
iso_time-stamp t v = cc (
  four_digits t.year v.year_from v.year_to,
  two_digits t.month v.month_to,
  two_digits t.day v.day_to,
  two_digits t.hour v.hour_to,
  two_digits t.minute v.minute_to,
  two_digits t.second v.second_to,
)

read-stamp :
    (t : LocalTime) (rest : List ℕ)
    → IsTime t
    → read_iso_time (
        stamp (four t.year) (two t.month) (two t.day) (two t.hour) (two t.minute) (two t.second)
        ++ rest)
      ≡ t
unfolding read_iso_time field
read-stamp t rest v = cc (
  value-four t.year v.year_to,
  value-two t.month v.month_to,
  value-two t.day v.day_to,
  value-two t.hour v.hour_to,
  value-two t.minute v.minute_to,
  value-two t.second v.second_to,
)

log_string-blank :
    (l : LogLevel) (rest : List ℕ) → (tail : List ℕ) × (log_string l ++ rest ≡ 32 ∷ tail)
log_string-blank trace rest = (_, refl)
log_string-blank debug rest = (_, refl)
log_string-blank info rest = (_, refl)
log_string-blank warn rest = (_, refl)
log_string-blank error rest = (_, refl)

-- What follows the time in a line: the thread's number and a blank.
line_parts :
    (t : LocalTime) (thread_id : ℕ) (m : Macro) (at : Place) (msg : List ℕ)
    → (tail : List ℕ) × (log_line t thread_id m at msg
        ≡ iso_time t ++ (to_string thread_id ++ (32 ∷ tail)))
unfolding log_line line_start
line_parts t thread_id m at msg =
    let end : List ℕ =
      (91 ∷ base_name at.file)
      ++ (58 ∷ (to_string at.line ++ (93 ∷ func_text (function_of m at)))) in
    let message : List ℕ = msg ++ (10 ∷ []) in
    let (tail, e) = log_string-blank (level_of m) (end ++ message) in
    (
      tail,
      append_assoc (iso_time t) (to_string thread_id ++ (log_string (level_of m) ++ end)) message
          ∙ ap (◌++◌ (iso_time t)) (
              append_assoc (to_string thread_id) (log_string (level_of m) ++ end) message
              ∙ ap (◌++◌ (to_string thread_id))
                  (append_assoc (log_string (level_of m)) end message ∙ e)),
    )

-- A line that is written at a time with four digits of the year and two of the others gives the time
-- back from its first 19 characters, and the thread's number from the digits behind them.
pub read-log_line :
    (t : LocalTime) (thread_id : ℕ) (m : Macro) (at : Place) (msg : List ℕ)
    → IsTime t
    → let line = log_line t thread_id m at msg in
      (read_iso_time line ≡ t) × (value 0 (drop 19 line) ≡ thread_id)
read-log_line t thread_id m at msg v =
    let (tail, e) = line_parts t thread_id m at msg in
    let rest : List ℕ = to_string thread_id ++ (32 ∷ tail) in
    let whole : log_line t thread_id m at msg
        ≡ stamp (four t.year) (two t.month) (two t.day) (two t.hour) (two t.minute) (two t.second)
          ++ rest =
      e ∙ ap (λ x. x ++ rest) (iso_time-stamp t v) in
    (
      ap read_iso_time whole ∙ read-stamp t rest v,
      ap (λ line. value 0 (drop 19 line)) whole ∙ value-to_string thread_id tail,
    )
