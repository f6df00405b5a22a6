-- ===== src/TimeInterval.antt =====
-- timeinterval/timeinterval.go: whether an interval contains a time, and the intervener.
--
-- The fields of a time in a location come from the package time and its zone data: `Calendar` is a
-- parameter, given UTC for no location. A nil slice is `none`.
pub mod Days
pub mod Muting
use Prim.Native.String.{String}
use codestra_alertmanager.Prelude.{
  ℕ, zero, suc, ◌+◌, ◌-◌, ◌*◌, ◌%◌, Bool, true, false, not, ◌&&◌, ◌||◌, Option, none, some, List,
  [], ◌∷◌, ◌++◌, if◌then◌else◌, ltb, leb, nat_beq, any, string_eq,
}
use codestra_alertmanager.Prelude.Maps.{Map, lookup}
use codestra_alertmanager.Silence.Data.{is_nil}
use codestra_alertmanager.Clock.{Time}

-- An int: `negsuc n` is -(n + 1).
pub data ℤ : Type 0 where
  pos negsuc : ℕ → ℤ

abbrev pub leb_int : ℤ → ℤ → Bool
leb_int (pos a) (pos b) = leb a b
leb_int (pos a) (negsuc b) = false
leb_int (negsuc a) (pos b) = true
leb_int (negsuc a) (negsuc b) = leb b a

abbrev pub neg : ℕ → ℤ
neg zero = pos 0
neg (suc n) = negsuc n

-- The difference of two natural numbers.
abbrev pub minus : ℕ → ℕ → ℤ
minus a b = if leb b a then pos (a - b) else neg (b - a)

pub record InclusiveRange : Type 0 where
  pub begin : ℤ
  pub end : ℤ

pub record TimeRange : Type 0 where
  pub start_minute : ℕ
  pub end_minute : ℕ

pub record TimeInterval : Type 0 where
  pub times : Option (List TimeRange)
  pub weekdays : Option (List InclusiveRange)
  pub days_of_month : Option (List InclusiveRange)
  pub months : Option (List InclusiveRange)
  pub years : Option (List InclusiveRange)
  pub location : Option String

-- What the code reads of a `time.Time`.
pub record Civil : Type 0 where
  pub year : ℕ
  pub month : ℕ
  pub day : ℕ
  pub weekday : ℕ
  pub hour : ℕ
  pub minute : ℕ

abbrev pub Calendar : Type 0
Calendar = Option String → Time → Civil

abbrev pub is_leap : ℕ → Bool
is_leap y = nat_beq (y % 4) 0 && (not (nat_beq (y % 100) 0) || nat_beq (y % 400) 0)

-- `daysInMonth`: the last day before the first of the next month.
unfoldable pub days_in_month : Civil → ℕ
days_in_month c =
    if nat_beq c.month 2
    then (if is_leap c.year then 29 else 28)
    else if nat_beq c.month 4 || nat_beq c.month 6 || nat_beq c.month 9 || nat_beq c.month 11
    then 30
    else 31

-- `clamp`
unfoldable pub clamp : ℤ → ℤ → ℤ → ℤ
clamp n min max = if leb_int n min then min else if leb_int max n then max else n

-- A bound that is negative counts from the end of the month.
abbrev pub from_end : ℕ → ℤ → ℤ
from_end days (pos n) = pos n
from_end days (negsuc n) = minus days n

-- One round of the loop over `DaysOfMonth`.
unfoldable pub contains_day : ℕ → ℕ → InclusiveRange → Bool
contains_day days day r =
    let begin = from_end days r.begin in
    let end = from_end days r.end in
    if not (leb_int begin (pos days))
    then false
    else leb_int (clamp begin (neg days) (pos days)) (pos day)
      && leb_int (pos day) (clamp end (neg days) (pos days))

abbrev pub in_range : ℕ → InclusiveRange → Bool
in_range n r = leb_int r.begin (pos n) && leb_int (pos n) r.end

abbrev pub in_times : ℕ → TimeRange → Bool
in_times minutes r = leb r.start_minute minutes && ltb minutes r.end_minute

-- A field that is not given does not restrict.
abbrev pub unless_any : {A : Type 0} → (A → Bool) → Option (List A) → Bool
unless_any p none = true
unless_any p (some xs) = any p xs

-- `ContainsTime`
unfoldable pub contains_time : Calendar → TimeInterval → Time → Bool
contains_time calendar tp t =
    let c = calendar tp.location t in
    unless_any (in_times (c.hour * 60 + c.minute)) tp.times
    && unless_any (contains_day (days_in_month c) c.day) tp.days_of_month
    && unless_any (in_range c.month) tp.months
    && unless_any (in_range c.weekday) tp.weekdays
    && unless_any (in_range c.year) tp.years

-- What `Mutes` of the intervener returns: the names of the intervals that contain the time, one for
-- each, or the name that is not configured.
pub data Answer : Type 0 where
  unknown_interval : String → Answer
  contained : List String → Answer

abbrev pub names_of : Calendar → Time → String → List TimeInterval → List String
names_of calendar now name [] = []
names_of calendar now name (ti ∷ tis) =
    let rest = names_of calendar now name tis in
    if contains_time calendar ti now then name ∷ rest else rest

abbrev pub prepend : List String → Answer → Answer
prepend names (unknown_interval n) = unknown_interval n
prepend names (contained more) = contained (names ++ more)

-- `Intervener.Mutes`
unfoldable pub intervener_mutes :
    Map String (List TimeInterval) → Calendar → List String → Time → Answer
intervener_mutes intervals calendar [] now = contained []
intervener_mutes intervals calendar (name ∷ names) now =
    let rest = intervener_mutes intervals calendar names now in
    elim (lookup name intervals) [
      | none ↦ unknown_interval name
      | some interval ↦ prepend (names_of calendar now name interval) rest
    ]
