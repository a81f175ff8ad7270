-- ===== src/Logging/Stamp.antt =====
-- The time in front of a line of the log, and the block of 20 bytes it is written to.
use httpserv.Prelude.{
  ℕ, zero, suc, ◌+◌, ◌≤◌, ◌<◌, inl, inr, ◌≡◌, [], ◌∷◌, some, Bytes, Bool-cases, ltb, length,
  length-append, if◌then◌else◌, arith,
}
use mathlib.Core.Path.{subst}
use Prim.Native.Nat.{◌*◌, ◌/◌, ◌%◌}
use native.Mathlib.Numerals.{unary_clauses}
use httpserv.Cstring.Decimal.{digits_onto, decimal}
use httpserv.Logging.{Tm, Logger, set, pad_two, time_text, strftime, get_time}

-- The number that has two digits more than `k`, and is the least of those.
abbrev power : ℕ → ℕ
power zero = 10
power (suc k) = 10 * power k

power_ge : (k : ℕ) → 10 ≤ power k
power_ge zero = omega arith
power_ge (suc k) = omega (arith, power_ge k)

digits-length_le :
    (k fuel n : ℕ) (acc : Bytes)
    → n < power k
    → length (digits_onto fuel n acc) ≤ length acc + suc k
unfolding digits_onto
digits-length_le k zero n acc h = omega arith
digits-length_le zero (suc fuel) n acc h = ground arith
digits-length_le (suc k) (suc fuel) n acc h =
    ground (arith, digits-length_le k fuel (n / 10) ((b'0' + n % 10) ∷ acc))

digits-length_grows : (fuel n : ℕ) (acc : Bytes) → length acc ≤ length (digits_onto fuel n acc)
unfolding digits_onto
digits-length_grows zero n acc = omega arith
digits-length_grows (suc fuel) n acc =
    ground (arith, digits-length_grows fuel (n / 10) ((b'0' + n % 10) ∷ acc))

digits-length_some :
    (fuel n : ℕ) (acc : Bytes) → length acc + 1 ≤ length (digits_onto (suc fuel) n acc)
unfolding digits_onto
digits-length_some fuel n acc =
    ground (arith, digits-length_grows fuel (n / 10) ((b'0' + n % 10) ∷ acc))

digits-length_ge :
    (k fuel n : ℕ) (acc : Bytes)
    → power k ≤ n
    → k + 2 ≤ fuel
    → length acc + (k + 2) ≤ length (digits_onto fuel n acc)
unfolding digits_onto
digits-length_ge k zero n acc h f = omega arith
digits-length_ge zero (suc zero) n acc h f = omega arith
digits-length_ge zero (suc (suc fuel)) n acc h f =
    ground (arith, digits-length_some fuel (n / 10) ((b'0' + n % 10) ∷ acc))
digits-length_ge (suc k) (suc fuel) n acc h f =
    ground (arith, power_ge k, digits-length_ge k fuel (n / 10) ((b'0' + n % 10) ∷ acc))

decimal-length_le : (k n : ℕ) → n < power k → length (decimal n) ≤ suc k
unfolding decimal
decimal-length_le k n h = omega (arith, digits-length_le k (n + 1) n [] h)

decimal-length_ge : (k n : ℕ) → power k ≤ n → k + 2 ≤ n + 1 → k + 2 ≤ length (decimal n)
unfolding decimal
decimal-length_ge k n h f = omega (arith, digits-length_ge k (n + 1) n [] h f)

decimal-length_some : (n : ℕ) → 1 ≤ length (decimal n)
unfolding decimal
decimal-length_some n =
    subst (λ f. 1 ≤ length (digits_onto f n [])) (succ n) (digits-length_some n n [])
  where
    succ : (n : ℕ) → suc n ≡ n + 1
    succ n = omega arith

pad_two-length : (n : ℕ) → n < 100 → length (pad_two n) ≡ 2
unfolding pad_two
pad_two-length n h = elim (Bool-cases (ltb n 10)) [
  | inl e ↦
      let small : n < 10 = ground arith in
      rw e (omega (arith, decimal-length_le 0 n small, decimal-length_some n))
  | inr e ↦
      let large : 10 ≤ n = ground arith in
      rw e (omega (arith, decimal-length_le 1 n h, decimal-length_ge 0 n large (omega arith)))
]

-- The parts of a time in their ranges.
pub record IsTime (tm : Tm) : Type 0 where
  pub month_le : tm.month ≤ 12
  pub day_le : tm.day ≤ 31
  pub hour_le : tm.hour ≤ 23
  pub minute_le : tm.minute ≤ 59
  pub second_le : tm.second ≤ 60

time_text-length : (tm : Tm) → IsTime tm → length (time_text tm) ≡ length (decimal tm.year) + 15
unfolding time_text
time_text-length tm h =
    simp
      (
        unary_clauses,
        length-append,
        pad_two-length tm.month (omega (arith, h.month_le)),
        pad_two-length tm.day (omega (arith, h.day_le)),
        pad_two-length tm.hour (omega (arith, h.hour_le)),
        pad_two-length tm.minute (omega (arith, h.minute_le)),
        pad_two-length tm.second (omega (arith, h.second_le)),
      )
      (omega arith)

-- What stands in the brackets of a line: the time, as long as the year has four digits.
abbrev pub stamp : Tm → Bytes
stamp tm = if ltb tm.year 10000 then time_text tm else []

-- The stamp of a log that was started, for a time with every part but the year in its range.
pub get_time-stamp :
    (l : Logger) (tm : Tm) → l.time_str ≡ set tt → IsTime tm → get_time l tm ≡ some (stamp tm)
unfolding get_time strftime
get_time-stamp l tm live h = elim (Bool-cases (ltb tm.year 10000)) [
  | inl e ↦
      let small : tm.year < 10000 = ground arith in
      let len = decimal-length_le 3 tm.year small in
      rw (live, e) (ground (arith, len, time_text-length tm h))
  | inr e ↦
      let large : 10000 ≤ tm.year = ground arith in
      let len = decimal-length_ge 3 tm.year large (omega arith) in
      rw (live, e) (ground (arith, len, time_text-length tm h))
]
