-- ===== src/Inhibit/Removal.antt =====
-- `GC` of the store of a rule of inhibit/inhibit.go, with `gcCallback`.
use codestra_alertmanager.Prelude.{
  true, false, Option, none, some, List, [], ◌∷◌, String, string_eq, ◌≡◌, refl, ◌∙◌, ap, sym, subst,
  arith, All, Comparable, Bool-cases, inl, inr, ◌==◌,
}
use Prim.{tt}
use codestra_alertmanager.Prelude.Maps.{Map, lookup, lookup-erase}
use codestra_alertmanager.Clock.{Time}
use codestra_alertmanager.Labels.{LabelSet, matches_all, label}
use codestra_alertmanager.Alert.{Alert}
use codestra_alertmanager.Store.Setting.{set_unlimited}
use codestra_alertmanager.Store.{
  Error, Library, Alerts, get, gc, gc_alerts, gc_limit_buckets, collect,
}
use codestra_alertmanager.Inhibit.{
  InhibitRule, fingerprint_equals, equal_set, find_equal_source_alert, has_equal, mutes_by, gc_rule,
  gc_callback, process_rule, process_alert, update_index,
}
use codestra_alertmanager.Inhibit.Cache.{after, by_gc, by_callback, by_set, by_index}
use codestra_alertmanager.Inhibit.Soundness.{IsRunning, IsRunning-IsSound}
use codestra_alertmanager.Inhibit.Current.{equal_set_labels, process_rule_set}

module _ {F : Type 0} ⦃e : Comparable F⦄ (lib : Library F) where
  pub data In (a : Alert) : List Alert → Type 0 where
    here : {as' : List Alert} → In a (a ∷ as')
    there : {b : Alert} {as' : List Alert} → In a as' → In a (b ∷ as')

  collect-In :
      (clock : F → Time) (m : Map F Alert) (fp : F) (a : Alert)
      → lookup fp m ≡ some a
      → lib.resolved_at a (clock fp) ≡ true
      → In a (collect lib clock m).1
  unfolding lookup
  collect-In clock [] fp a h r = absurd (ground (arith, h))
  collect-In clock ((k, b) ∷ m) fp a h r = elim (Bool-cases (k == fp)) [
    | inl same ↦
        let b_is_a : b ≡ a = ground (arith, h, same) in
        let at_fp : k ≡ fp = (e.beq_iff k fp).0 same in
        let resolved : lib.resolved_at b (clock k) ≡ true = rw (b_is_a, at_fp) r in
        rw resolved (subst (λ c. In a (c ∷ (collect lib clock m).1)) (sym b_is_a) here)
    | inr other ↦
        let rest = collect-In clock m fp a (ground (arith, h, other)) r in
        elim (Bool-cases (lib.resolved_at b (clock k))) [
          | inl resolved ↦ rw resolved (there rest)
          | inr firing ↦ rw firing rest
        ]
  ]

  -- What is off the index stays off.
  gc_callback-none :
      (as' : List Alert) (r : InhibitRule F) (k : F)
      → lookup k r.sindex ≡ none
      → lookup k (gc_callback lib as' r).sindex ≡ none
  unfolding gc_callback
  gc_callback-none [] r k h = h
  gc_callback-none (a ∷ as') r k h =
      gc_callback-none as' _ k
        (ground (arith, h, lookup-erase (fingerprint_equals lib r a.labels) k r.sindex))

  gc_callback-In :
      (as' : List Alert) (r : InhibitRule F) (a : Alert)
      → In a as'
      → lookup (fingerprint_equals lib r a.labels) (gc_callback lib as' r).sindex ≡ none
  unfolding gc_callback
  gc_callback-In [] r a i = elim i [ ]
  gc_callback-In (b ∷ as') r a here = gc_callback-none as' _ (fingerprint_equals lib r a.labels) (
      ground (
        arith,
        lookup-erase (fingerprint_equals lib r a.labels) (fingerprint_equals lib r a.labels)
            r.sindex,
        e.beq_iff (fingerprint_equals lib r a.labels) (fingerprint_equals lib r a.labels),
      ))
  gc_callback-In (b ∷ as') r a (there i) = gc_callback-In as' _ a i

  equal-gc_callback :
      (as' : List Alert) (r : InhibitRule F) → (gc_callback lib as' r).equal ≡ r.equal
  unfolding gc_callback
  equal-gc_callback [] r = refl
  equal-gc_callback (a ∷ as') r = equal-gc_callback as' _

  gc-In :
      (r : InhibitRule F) (names : String → Time) (clock : F → Time) (fp : F) (a : Alert)
      → get r.scache fp ≡ some a
      → lib.resolved_at a (clock fp) ≡ true
      → In a (gc lib names clock r.scache).1
  unfolding gc gc_alerts gc_limit_buckets get
  gc-In r names clock fp a h resolved = collect-In clock r.scache.alerts fp a h resolved

  mutes_by-none :
      (r : InhibitRule F) (lset : LabelSet) (now : Time)
      → lookup (fingerprint_equals lib r lset) r.sindex ≡ none
      → mutes_by lib r lset now ≡ none
  unfolding has_equal find_equal_source_alert
  mutes_by-none r lset now h = ground (arith, h)

  -- Once the collection has removed a resolved source alert, the rule mutes no label set whose
  -- labels agree with that alert's where the rule wants them equal, at any time, whatever other
  -- source alerts are still in its cache.
  pub gc_rule-mutes_by :
      (r : InhibitRule F) (names : String → Time) (clock : F → Time) (fp : F) (a : Alert)
      (lset : LabelSet) (now : Time)
      → get r.scache fp ≡ some a
      → lib.resolved_at a (clock fp) ≡ true
      → ((n : String) → lookup n r.equal ≡ some tt → label n a.labels ≡ label n lset)
      → mutes_by lib (gc_rule lib names clock r) lset now ≡ none
  unfolding gc_rule
  gc_rule-mutes_by r names clock fp a lset now h resolved equal =
      let g = gc lib names clock r.scache in
      let s : InhibitRule F = record r { scache = g.0 } in
      let gone = gc_callback-In g.1 s a (gc-In r names clock fp a h resolved) in
      mutes_by-none (gc_rule lib names clock r) lset now (
        ap (λ k. lookup k (gc_callback lib g.1 s).sindex)
          (ap (λ m. lib.fingerprint (equal_set m lset)) (equal-gc_callback g.1 s)
            ∙ ap lib.fingerprint (sym (equal_set_labels r.equal a.labels lset equal)))
        ∙ gone)

  process_rule_skipped :
      (a : Alert) (clock : Time) (r : InhibitRule F)
      → matches_all r.source a.labels ≡ false
      → process_rule lib a clock r ≡ r
  unfolding process_rule
  process_rule_skipped a clock r h = simp h

  pub process_rule-IsRunning :
      (a : Alert) (clock : Time) (r : InhibitRule F)
      → IsRunning lib r
      → IsRunning lib (process_rule lib a clock r)
  process_rule-IsRunning a clock r (fresh, n, steps) =
      elim (Bool-cases (matches_all r.source a.labels)) [
        | inr out ↦
            subst (IsRunning lib) (sym (process_rule_skipped a clock r out)) (fresh, n, steps)
        | inl m ↦
            let w = IsRunning-IsSound lib r (fresh, n, steps) in
            subst (IsRunning lib) (sym (process_rule_set lib r a clock w m)) (
              subst
                (λ (u : Alerts F × Option Error).
                  IsRunning lib (update_index lib (record r { scache = u.0 }) a))
                (set_unlimited lib a clock r.scache w.live (ground (arith, w.unlimited)))
                (fresh, n, after (after steps (by_set a clock m)) (by_index a)))
      ]

  gc_rule-IsRunning :
      (names : String → Time) (clock : F → Time) (r : InhibitRule F)
      → IsRunning lib r
      → IsRunning lib (gc_rule lib names clock r)
  unfolding gc_rule
  gc_rule-IsRunning names clock r (fresh, n, steps) = (
    fresh,
    n,
    after (after steps (by_gc names clock)) (by_callback (gc lib names clock r.scache).1),
  )

  process_alert-IsRunning :
      (a : Alert) (clock : Time) (rules : List (InhibitRule F))
      → All (IsRunning lib) rules
      → All (IsRunning lib) (process_alert lib a clock rules)
  unfolding process_alert
  process_alert-IsRunning a clock [] all = tt
  process_alert-IsRunning a clock (r ∷ rules) all =
      (process_rule-IsRunning a clock r all.0, process_alert-IsRunning a clock rules all.1)
