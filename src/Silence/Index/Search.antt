-- ===== src/Silence/Index/Search.antt =====
-- `sort.Search` as `findVersionGreaterThan` of silence/silence.go uses it.
use codestra_alertmanager.Prelude.{
  ℕ, zero, suc, ◌+◌, ◌-◌, ◌/◌, ◌≤◌, ◌<◌, ◌≡◌, refl, inl, inr, Bool, true, false, not, [], ◌∷◌,
  length, drop, keep, ltb, arith, Bool-cases, if◌then◌else◌,
}
use codestra_alertmanager.Silence.Data.{is_nil}
use codestra_alertmanager.Silence.Index.{
  VersionIndex, newer_at, search_between, find_version_greater_than,
}

-- The versions never fall along the index.
abbrev pub AllFrom : ℕ → VersionIndex → Type 0
AllFrom v [] = Unit
AllFrom v (sv ∷ vi) = (v ≤ sv.version) × AllFrom v vi

abbrev pub IsSorted : VersionIndex → Type 0
IsSorted [] = Unit
IsSorted (sv ∷ vi) = AllFrom sv.version vi × IsSorted vi

-- The test is false below `k` and true from `k` on, up to `n`.
record Splits (f : ℕ → Bool) (k n : ℕ) : Type 0 where
  below : (i : ℕ) → i < k → f i ≡ false
  above : (i : ℕ) → k ≤ i → i < n → f i ≡ true

search_between_lem :
    (fuel : ℕ) (f : ℕ → Bool) (i j k n : ℕ)
    → Splits f k n
    → i ≤ k
    → k ≤ j
    → j ≤ n
    → j - i ≤ fuel
    → search_between fuel f i j ≡ k
unfolding search_between
search_between_lem zero f i j k n s a b c d = omega arith
search_between_lem (suc fuel) f i j k n s a b c d = ground (
  arith,
  s.below ((i + j) / 2),
  s.above ((i + j) / 2),
  search_between_lem fuel f i ((i + j) / 2) k n s,
  search_between_lem fuel f ((i + j) / 2 + 1) j k n s,
)

-- How many entries are not newer than `v`; in a sorted index they stand first.
older : ℕ → VersionIndex → ℕ
older v [] = 0
older v (sv ∷ vi) = if ltb v sv.version then 0 else suc (older v vi)

AllFrom-newer :
    (v w : ℕ) (vi : VersionIndex) (i : ℕ)
    → v < w
    → AllFrom w vi
    → i < length vi
    → newer_at v vi i ≡ true
AllFrom-newer v w [] i h a lt = absurd (omega arith)
AllFrom-newer v w (sv ∷ vi) zero h a lt = ground arith
AllFrom-newer v w (sv ∷ vi) (suc i) h a lt = AllFrom-newer v w vi i h a.1 (omega arith)

older-le-length : (v : ℕ) (vi : VersionIndex) → older v vi ≤ length vi
unfolding older
older-le-length v [] = omega arith
older-le-length v (sv ∷ vi) = ground (arith, older-le-length v vi)

newer_at-below : (v : ℕ) (vi : VersionIndex) (i : ℕ) → i < older v vi → newer_at v vi i ≡ false
unfolding older
newer_at-below v [] i h = refl
newer_at-below v (sv ∷ vi) zero h = ground arith
newer_at-below v (sv ∷ vi) (suc i) h = ground (arith, newer_at-below v vi i)

newer_at-above :
    (v : ℕ) (vi : VersionIndex) (i : ℕ)
    → IsSorted vi
    → older v vi ≤ i
    → i < length vi
    → newer_at v vi i ≡ true
unfolding older
newer_at-above v [] i s a b = absurd (omega arith)
newer_at-above v (sv ∷ vi) zero s a b = ground arith
newer_at-above v (sv ∷ vi) (suc i) s a b = elim (Bool-cases (ltb v sv.version)) [
  | inl newer ↦ AllFrom-newer v sv.version vi i (ground arith) s.0 (omega arith)
  | inr old ↦ newer_at-above v vi i s.1 (ground arith) (omega arith)
]

find_version-eq-older :
    (v : ℕ) (vi : VersionIndex)
    → IsSorted vi
    → find_version_greater_than v vi ≡ (older v vi, ltb (older v vi) (length vi))
unfolding find_version_greater_than
find_version-eq-older v vi s =
    let splits : Splits (newer_at v vi) (older v vi) (length vi) = record {
      below = newer_at-below v vi;
      above = λ i a b. newer_at-above v vi i s a b;
    } in
    rw (
      search_between_lem (length vi) (newer_at v vi) 0 (length vi) (older v vi) (length vi) splits
        (omega arith) (older-le-length v vi) (omega arith) (omega arith))

AllFrom-keep :
    (v w : ℕ) (vi : VersionIndex) → v < w → AllFrom w vi → keep (λ sv. ltb v sv.version) vi ≡ vi
AllFrom-keep v w [] h a = refl
AllFrom-keep v w (sv ∷ vi) h a = ground (arith, AllFrom-keep v w vi)

drop-older :
    (v : ℕ) (vi : VersionIndex)
    → IsSorted vi
    → drop (older v vi) vi ≡ keep (λ sv. ltb v sv.version) vi
unfolding older
drop-older v [] s = refl
drop-older v (sv ∷ vi) s = elim (Bool-cases (ltb v sv.version)) [
  | inl newer ↦ rw newer (ground (arith, AllFrom-keep v sv.version vi))
  | inr old ↦ rw old (drop-older v vi s.1)
]

older_some :
    (v : ℕ) (vi : VersionIndex)
    → ltb (older v vi) (length vi) ≡ not (is_nil (keep (λ sv. ltb v sv.version) vi))
unfolding older
older_some v [] = refl
older_some v (sv ∷ vi) = ground (arith, older_some v vi)

-- The entries that a query since `v` scans.
abbrev pub newer : ℕ → VersionIndex → VersionIndex
newer v vi = keep (λ sv. ltb v sv.version) vi

-- On a sorted version index, the entries from the index that `findVersionGreaterThan` returns are
-- exactly the entries with a higher version, in their order, and it reports that it found one
-- exactly when there is one.
pub find_version-newer :
    (v : ℕ) (vi : VersionIndex)
    → IsSorted vi
    → (drop (find_version_greater_than v vi).0 vi ≡ newer v vi)
      × ((find_version_greater_than v vi).1 ≡ not (is_nil (newer v vi)))
find_version-newer v vi s =
    let e = find_version-eq-older v vi s in (rw e (drop-older v vi s), rw e (older_some v vi))
