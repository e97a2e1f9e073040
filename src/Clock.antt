-- ===== src/Clock.antt =====
-- `utc_now` of spark_broker/store.py: the time as text, and the order that SQL gives such texts.
--
-- A `Stamp` is the instant in microseconds. Its text is `YYYY-MM-DDTHH:MM:SS.ffffffZ`, but
-- `isoformat` leaves the fraction out where it is zero: `YYYY-MM-DDTHH:MM:SSZ`. The parts up to
-- the seconds have a fixed width, so texts compare by the second first; within one second the
-- fractions compare as numbers, and the text without a fraction comes last, since `.` < `Z`.
pub mod Texts
use go7_spark_broker.Prelude.{ℕ, ◌+◌, ◌%◌, ◌≡◌, Bool, arith, eqb, leb, ltb, if◌then◌else◌}

abbrev pub Stamp : Type 0
Stamp = ℕ

abbrev pub second : ℕ
second = 1000000

-- The place of a stamp's text in the order of texts. `Texts` has the text itself.
abbrev pub rank : Stamp → ℕ
rank t = if eqb (t % second) 0 then t + second else t

-- `a <= b` and `a < b` of two texts
abbrev pub text_le : Stamp → Stamp → Bool
text_le a b = leb (rank a) (rank b)

abbrev pub text_lt : Stamp → Stamp → Bool
text_lt a b = ltb (rank a) (rank b)
