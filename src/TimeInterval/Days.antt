-- ===== src/TimeInterval/Days.antt =====
-- `ContainsTime` of timeinterval/timeinterval.go: the days of a month, counted from either end.
use Prim.Native.String.{String}
use codestra_alertmanager.Prelude.{
  ℕ, ◌+◌, ◌-◌, ◌*◌, ◌≤◌, ◌<◌, ◌≡◌, refl, Bool, ◌&&◌, leb, arith, any, List, [], ◌∷◌, Option, none,
  some,
}
use codestra_alertmanager.Clock.{Time}
use codestra_alertmanager.TimeInterval.{
  ℤ, pos, negsuc, InclusiveRange, clamp, contains_day, TimeInterval, Calendar, Civil, days_in_month,
  contains_time, unless_any, in_times, in_range,
}

-- The day is not before the bound, which counts from the start of the month or from its end.
abbrev pub is_from : ℕ → ℕ → ℤ → Bool
is_from days day (pos n) = leb n day
is_from days day (negsuc n) = leb (days - day) n

abbrev pub is_until : ℕ → ℕ → ℤ → Bool
is_until days day (pos n) = leb day n
is_until days day (negsuc n) = leb n (days - day)

contains_bounds :
    (days day : ℕ) (b e : ℤ)
    → 0 < day
    → day ≤ days
    → contains_day days day (record { begin = b; end = e })
      ≡ (is_from days day b && is_until days day e)
unfolding contains_day clamp
contains_bounds days day (pos b) (pos e) h l = ground arith
contains_bounds days day (pos b) (negsuc e) h l = ground arith
contains_bounds days day (negsuc b) (pos e) h l = ground arith
contains_bounds days day (negsuc b) (negsuc e) h l = ground arith

contains_day-is_from :
    (days day : ℕ) (r : InclusiveRange)
    → 0 < day
    → day ≤ days
    → contains_day days day r ≡ (is_from days day r.begin && is_until days day r.end)
contains_day-is_from days day r h l = contains_bounds days day r.begin r.end h l

any-contains_day :
    (days day : ℕ) (rs : List InclusiveRange)
    → 0 < day
    → day ≤ days
    → any (contains_day days day) rs
      ≡ any (λ r. is_from days day r.begin && is_until days day r.end) rs
any-contains_day days day [] h l = refl
any-contains_day days day (r ∷ rs) h l =
    rw (contains_day-is_from days day r h l, any-contains_day days day rs h l)

unless_any-contains_day :
    (days day : ℕ) (o : Option (List InclusiveRange))
    → 0 < day
    → day ≤ days
    → unless_any (contains_day days day) o
      ≡ unless_any (λ r. is_from days day r.begin && is_until days day r.end) o
unless_any-contains_day days day none h l = refl
unless_any-contains_day days day (some rs) h l = any-contains_day days day rs h l

-- The days of a calendar are those of its months.
abbrev pub HasDays : Calendar → Type 0
HasDays calendar =
    (location : Option String) (t : Time)
    → (0 < (calendar location t).day)
      × ((calendar location t).day ≤ days_in_month (calendar location t))

-- The interval contains the time, by the fields of the time in the interval's location.
abbrev pub is_within : TimeInterval → Civil → Bool
is_within tp c =
    unless_any (in_times (c.hour * 60 + c.minute)) tp.times
    && unless_any
        (λ r. is_from (days_in_month c) c.day r.begin && is_until (days_in_month c) c.day r.end)
        tp.days_of_month
    && unless_any (in_range c.month) tp.months
    && unless_any (in_range c.weekday) tp.weekdays
    && unless_any (in_range c.year) tp.years

-- `ContainsTime` answers as each field of the interval says of the time in its location, where a
-- negative day bound counts the days left in the month: neither the clamping nor the early
-- `continue` changes an answer. The days of the calendar are those of its months.
pub contains_time_lem :
    (calendar : Calendar) (tp : TimeInterval) (t : Time)
    → HasDays calendar
    → contains_time calendar tp t ≡ is_within tp (calendar tp.location t)
unfolding contains_time
contains_time_lem calendar tp t days =
    let (h, l) = days tp.location t in
    rw (
      unless_any-contains_day (days_in_month (calendar tp.location t)) (calendar tp.location t).day
        tp.days_of_month h l)
