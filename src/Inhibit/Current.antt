-- ===== src/Inhibit/Current.antt =====
-- `processAlert` of inhibit/inhibit.go, followed by `Mutes`.
use codestra_alertmanager.Prelude.{
  true, false, not, Option, none, some, List, [], ◌∷◌, ◌&&◌, String, string_eq, ◌≡◌, refl, ◌∙◌, ap,
  sym, arith, ◌<◌, All, leb, nat_beq, Comparable, Option-cases, Bool-cases, inl, inr, ◌==◌,
}
use Prim.{tt}
use codestra_alertmanager.Prelude.Maps.{lookup, lookup-insert_self}
use codestra_alertmanager.Clock.{Time}
use codestra_alertmanager.Labels.{LabelSet, matches_all, label}
use codestra_alertmanager.Alert.{Alert}
use codestra_alertmanager.Store.{Library, get, set_admitted}
use codestra_alertmanager.Store.Setting.{set_unlimited}
use codestra_alertmanager.Inhibit.{
  InhibitRule, NameSet, fingerprint_equals, equal_set, find_equal_source_alert, has_equal, mutes_by,
  mutes, index_as, index_against, update_index, process_rule, process_alert,
}
use codestra_alertmanager.Inhibit.Cache.{IsSound}
use codestra_alertmanager.Inhibit.Soundness.{IsRunning, IsRunning-IsSound, Some, here, there}

pub equal_set_labels :
    (names : NameSet) (a b : LabelSet)
    → ((n : String) → lookup n names ≡ some tt → label n a ≡ label n b)
    → equal_set names a ≡ equal_set names b
unfolding lookup
equal_set_labels [] a b h = refl
equal_set_labels ((first, u) ∷ names) a b h =
    let rest = equal_set_labels names a b (λ n l. h n (ground (arith, l))) in
    let head = h first (ground (arith, string_eq.beq_iff first first)) in simp (head, rest)

module _ {F : Type 0} ⦃e : Comparable F⦄ (lib : Library F) where
  -- What `ResolvedAt` does: an end that is set and not after the time.
  abbrev pub ResolvesAtEnd : Type 0
  ResolvesAtEnd =
      (a : Alert) (t : Time) → lib.resolved_at a t ≡ (not (nat_beq a.ends_at 0) && leb a.ends_at t)

  -- The alert is of the source side of the rule and fires past `now`; the label set is of the target
  -- side only; their labels agree where the rule wants them equal.
  pub record Aims (a : Alert) (lset : LabelSet) (now : Time) (r : InhibitRule F) : Type 0 where
    pub source : matches_all r.source a.labels ≡ true
    pub firing : now < a.ends_at
    pub target : matches_all r.target lset ≡ true
    pub one_sided : matches_all r.source lset ≡ false
    pub equal : (n : String) → lookup n r.equal ≡ some tt → label n a.labels ≡ label n lset

  find_through :
      (r : InhibitRule F) (lset : LabelSet) (now : Time) (fp : F) (b : Alert)
      → lookup (fingerprint_equals lib r lset) r.sindex ≡ some fp
      → get r.scache fp ≡ some b
      → lib.resolved_at b now ≡ false
      → find_equal_source_alert lib r lset now ≡ some b
  unfolding find_equal_source_alert
  find_through r lset now fp b p q f = rw (p, q, f, find_equal_source_alert)

  update_index-finds :
      (r : InhibitRule F) (a : Alert) (lset : LabelSet) (now : Time)
      → ResolvesAtEnd
      → get r.scache (lib.fingerprint a.labels) ≡ some a
      → now < a.ends_at
      → fingerprint_equals lib r a.labels ≡ fingerprint_equals lib r lset
      → (b : Alert) × (find_equal_source_alert lib (update_index lib r a) lset now ≡ some b)
  unfolding update_index
  update_index-finds r a lset now ends cached firing same =
      let f : lib.resolved_at a now ≡ false = ends a now ∙ ground arith in
      let anew : find_equal_source_alert lib (index_as lib r a) lset now ≡ some a =
        find_through (index_as lib r a) lset now (lib.fingerprint a.labels) a
          (ap (λ k. lookup k (index_as lib r a).sindex) (sym same)
            ∙ lookup-insert_self (fingerprint_equals lib r a.labels) (lib.fingerprint a.labels)
                r.sindex)
          cached f in
      elim (Option-cases (lookup (fingerprint_equals lib r a.labels) r.sindex)) [
        | inl n ↦ rw (n, update_index) (a, anew)
        | inr (indexed, h) ↦ elim (Bool-cases (indexed == lib.fingerprint a.labels)) [
          | inl q ↦
              let there_is : indexed ≡ lib.fingerprint a.labels =
                (e.beq_iff indexed (lib.fingerprint a.labels)).0 q in
              rw (h, q, update_index)
                (
                  a,
                  find_through r lset now indexed a (ap (λ k. lookup k r.sindex) (sym same) ∙ h)
                      (ap (get r.scache) there_is ∙ cached) f,
                )
          | inr q ↦ elim (Option-cases (get r.scache indexed)) [
            | inl n ↦ rw (h, q, n, update_index) (a, anew)
            | inr (b, k) ↦ elim (Bool-cases (lib.resolved_at b a.ends_at)) [
              | inl resolved ↦ rw (h, q, k, resolved, update_index) (a, anew)
              | inr later ↦
                  rw (h, q, k, later, update_index)
                    (
                      b,
                      find_through r lset now indexed b (ap (λ k. lookup k r.sindex) (sym same) ∙ h)
                          k (ends b now ∙ ground (arith, ends b a.ends_at, later)),
                    )
            ]
          ]
        ]
      ]

  mutes_by_found :
      (r : InhibitRule F) (lset : LabelSet) (now : Time) (b : Alert)
      → matches_all r.target lset ≡ true
      → matches_all r.source lset ≡ false
      → find_equal_source_alert lib r lset now ≡ some b
      → mutes_by lib r lset now ≡ some (lib.fingerprint b.labels)
  unfolding has_equal
  mutes_by_found r lset now b t s h = ground (arith, t, s, h)

  matchers-index_against :
      (r : InhibitRule F) (a : Alert) (o : Option Alert)
      → ((index_against lib r a o).source ≡ r.source)
        × ((index_against lib r a o).target ≡ r.target)
  matchers-index_against r a none = (refl, refl)
  matchers-index_against r a (some b) = elim (Bool-cases (lib.resolved_at b a.ends_at)) [
    | inl q ↦ rw q (refl, refl)
    | inr q ↦ rw q (refl, refl)
  ]

  -- `updateIndex` leaves the matchers of a rule.
  matchers-update_index :
      (r : InhibitRule F) (a : Alert)
      → ((update_index lib r a).source ≡ r.source) × ((update_index lib r a).target ≡ r.target)
  unfolding update_index
  matchers-update_index r a =
      elim (Option-cases (lookup (fingerprint_equals lib r a.labels) r.sindex)) [
        | inl n ↦ rw (n, update_index) (refl, refl)
        | inr (indexed, h) ↦ elim (Bool-cases (indexed == lib.fingerprint a.labels)) [
          | inl q ↦ rw (h, q, update_index) (refl, refl)
          | inr q ↦ rw (h, q, update_index) (matchers-index_against r a (get r.scache indexed))
        ]
      ]

  pub process_rule_set :
      {Met : LabelSet → Type 0} (r : InhibitRule F) (a : Alert) (clock : Time)
      → IsSound lib Met r
      → matches_all r.source a.labels ≡ true
      → process_rule lib a clock r
        ≡ update_index lib (record r { scache = (set_admitted lib a r.scache true).0 }) a
  unfolding process_rule
  process_rule_set r a clock w m =
      simp (m, set_unlimited lib a clock r.scache w.live (ground (arith, w.unlimited)))

  process_rule-mutes_by :
      {Met : LabelSet → Type 0} (r : InhibitRule F) (a : Alert) (clock : Time) (lset : LabelSet)
      (now : Time)
      → ResolvesAtEnd
      → IsSound lib Met r
      → Aims a lset now r
      → (fp : F) × (mutes_by lib (process_rule lib a clock r) lset now ≡ some fp)
  unfolding get
  process_rule-mutes_by r a clock lset now ends w aim =
      let stored : InhibitRule F = record r { scache = (set_admitted lib a r.scache true).0 } in
      let (b, found) =
        update_index-finds stored a lset now ends
          (lookup-insert_self (lib.fingerprint a.labels) a r.scache.alerts) aim.firing
          (ap lib.fingerprint (equal_set_labels r.equal a.labels lset aim.equal)) in
      let (s, t) = matchers-update_index stored a in
      (
        lib.fingerprint b.labels,
        ap (λ x. mutes_by lib x lset now) (process_rule_set r a clock w aim.source)
            ∙ mutes_by_found (update_index lib stored a) lset now b
                (ap (λ ms. matches_all ms lset) t ∙ aim.target)
                (ap (λ ms. matches_all ms lset) s ∙ aim.one_sided) found,
      )

  -- Once `processAlert` has taken a source alert of some rule, `Mutes` mutes every label set of
  -- the target side alone whose labels agree with the alert's where the rule wants them equal, at
  -- every time before the end of the alert. The rules have come from new ones, and `ResolvedAt`
  -- tests for an end that is set and not after the time.
  pub process_alert-mutes :
      (rules : List (InhibitRule F)) (a : Alert) (clock : Time) (lset : LabelSet) (now : Time)
      → ResolvesAtEnd
      → All (IsRunning lib) rules
      → Some lib (Aims a lset now) rules
      → (fp : F) × (mutes lib (process_alert lib a clock rules) lset now ≡ some fp)
  unfolding process_alert mutes
  process_alert-mutes [] a clock lset now ends all x = elim x [ ]
  process_alert-mutes (r ∷ rules) a clock lset now ends all (here aim) =
      let (fp, h) =
        process_rule-mutes_by r a clock lset now ends (IsRunning-IsSound lib r all.0) aim in
      (fp, rw (h, mutes))
  process_alert-mutes (r ∷ rules) a clock lset now ends all (there rest) =
      let (fp, h) = process_alert-mutes rules a clock lset now ends all.1 rest in
      elim (Option-cases (mutes_by lib (process_rule lib a clock r) lset now)) [
        | inl n ↦ (fp, rw (n, h, mutes))
        | inr (other, q) ↦ (other, rw (q, mutes))
      ]
