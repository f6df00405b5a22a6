-- ===== src/Inhibit/Cache.antt =====
-- The states that a rule of inhibit/inhibit.go reaches, by steps that may interleave.
use codestra_alertmanager.Prelude.{
  true, false, Option, none, some, List, [], ◌∷◌, String, string_eq, ◌≡◌, refl, sym, subst, arith,
  All, Comparable, Option-cases, Bool-cases, inl, inr, ◌==◌, ◌⊎◌,
}
use Prim.{tt}
use codestra_alertmanager.Prelude.Maps.{Map, lookup, All-insert, All-erase}
use codestra_alertmanager.Clock.{Time}
use codestra_alertmanager.Labels.{LabelSet, Compile, matches_all}
use codestra_alertmanager.Alert.{Alert}
use codestra_alertmanager.Store.{
  Library, Alerts, Error, get, set, gc, collect, gc_alerts, gc_limit_buckets, new_alerts,
}
use codestra_alertmanager.Store.Setting.{set_unlimited}
use codestra_alertmanager.Inhibit.{
  InhibitRule, InhibitConfig, fingerprint_equals, index_as, index_against, update_index,
  gc_callback, new_rule, side_matchers,
}

module _ {F : Type 0} ⦃e : Comparable F⦄ (lib : Library F) where
  -- A cached alert stands under its fingerprint and matches the source side, and its labels are among
  -- those that the rule has met.
  abbrev pub IsSource : (LabelSet → Type 0) → InhibitRule F → F × Alert → Type 0
  IsSource Met r x =
      (lib.fingerprint x.1.labels ≡ x.0) × (matches_all r.source x.1.labels ≡ true) × Met x.1.labels

  -- An entry of the index is for a label set with these `equal` labels that the rule has met.
  abbrev pub IsEntry : (LabelSet → Type 0) → InhibitRule F → F × F → Type 0
  IsEntry Met r x =
      (lset : LabelSet) × (fingerprint_equals lib r lset ≡ x.0)
      × (lib.fingerprint lset ≡ x.1)
      × Met lset

  pub record IsSound (Met : LabelSet → Type 0) (r : InhibitRule F) : Type 0 where
    pub sources : All (IsSource Met r) r.scache.alerts
    pub entries : All (IsEntry Met r) r.sindex
    pub live : r.scache.is_destroyed ≡ false
    pub unlimited : r.scache.per_alert_limit ≡ 0

  -- One step of one of the goroutines: an alert is stored, an alert is indexed, the resolved alerts
  -- are deleted, or the callback takes alerts off the index. Any of them may come between two others.
  pub data Step (r : InhibitRule F) : InhibitRule F → Type 0 where
    by_set :
        (a : Alert) (now : Time)
        → matches_all r.source a.labels ≡ true
        → Step r (record r { scache = (set lib a now r.scache).0 })
    by_index : (a : Alert) → Step r (update_index lib r a)
    by_gc :
        (names : String → Time) (clock : F → Time)
        → Step r (record r { scache = (gc lib names clock r.scache).0 })
    by_callback : (as' : List Alert) → Step r (gc_callback lib as' r)

  pub data Reach (r : InhibitRule F) : InhibitRule F → Type 0 where
    start : Reach r r
    after : {s t : InhibitRule F} → Reach r s → Step s t → Reach r t

  -- The labels of the alert that a step stores or indexes.
  abbrev pub Handles : {r s : InhibitRule F} → Step r s → LabelSet → Type 0
  Handles (by_set a now m) l = l ≡ a.labels
  Handles (by_index a) l = l ≡ a.labels
  Handles (by_gc names clock) l = ⊥
  Handles (by_callback as') l = ⊥

  -- The label sets of the alerts that the steps have stored or indexed.
  abbrev pub Meets : {r s : InhibitRule F} → Reach r s → LabelSet → Type 0
  Meets start l = ⊥
  Meets (after before step) l = Meets before l ⊎ Handles step l

  module _ (Met : LabelSet → Type 0) where
    set_cache-IsSound :
        (r : InhibitRule F) (a : Alert) (now : Time)
        → matches_all r.source a.labels ≡ true
        → Met a.labels
        → IsSound Met r
        → IsSound Met (record r { scache = (set lib a now r.scache).0 })
    set_cache-IsSound r a now m h w =
        subst (λ (u : Alerts F × Option Error). IsSound Met (record r { scache = u.0 }))
          (sym (set_unlimited lib a now r.scache w.live (ground (arith, w.unlimited))))
          (record {
            sources =
                All-insert (IsSource Met r) (lib.fingerprint a.labels) a r.scache.alerts
                  (refl, m, h) w.sources;
            entries = w.entries;
            live = w.live;
            unlimited = w.unlimited;
          })

    index_as-IsSound :
        (r : InhibitRule F) (a : Alert)
        → Met a.labels
        → IsSound Met r
        → IsSound Met (index_as lib r a)
    index_as-IsSound r a h w = record {
      sources = w.sources;
      entries =
          All-insert (IsEntry Met r) (fingerprint_equals lib r a.labels) (lib.fingerprint a.labels)
            r.sindex (a.labels, refl, refl, h) w.entries;
      live = w.live;
      unlimited = w.unlimited;
    }

    index_against-IsSound :
        (r : InhibitRule F) (a : Alert) (o : Option Alert)
        → Met a.labels
        → IsSound Met r
        → IsSound Met (index_against lib r a o)
    index_against-IsSound r a none h w = index_as-IsSound r a h w
    index_against-IsSound r a (some existing) h w =
        elim (Bool-cases (lib.resolved_at existing a.ends_at)) [
          | inl resolved ↦ rw resolved (index_as-IsSound r a h w)
          | inr later ↦ rw later w
        ]

    update_index-IsSound :
        (r : InhibitRule F) (a : Alert)
        → Met a.labels
        → IsSound Met r
        → IsSound Met (update_index lib r a)
    unfolding update_index
    update_index-IsSound r a h w =
        elim (Option-cases (lookup (fingerprint_equals lib r a.labels) r.sindex)) [
          | inl n ↦ rw (n, update_index) (index_as-IsSound r a h w)
          | inr (indexed, found) ↦ elim (Bool-cases (indexed == lib.fingerprint a.labels)) [
            | inl same ↦ rw (found, same, update_index) w
            | inr other ↦
                rw (found, other, update_index)
                  (index_against-IsSound r a (get r.scache indexed) h w)
          ]
        ]

    collect-IsSource :
        (r : InhibitRule F) (clock : F → Time) (m : Map F Alert)
        → All (IsSource Met r) m
        → All (IsSource Met r) (collect lib clock m).0
    collect-IsSource r clock [] all = tt
    collect-IsSource r clock ((fp, a) ∷ m) all = elim (Bool-cases (lib.resolved_at a (clock fp))) [
      | inl resolved ↦ rw resolved (collect-IsSource r clock m all.1)
      | inr firing ↦ rw firing (all.0, collect-IsSource r clock m all.1)
    ]

    gc-IsSound :
        (r : InhibitRule F) (names : String → Time) (clock : F → Time)
        → IsSound Met r
        → IsSound Met (record r { scache = (gc lib names clock r.scache).0 })
    unfolding gc gc_alerts gc_limit_buckets
    gc-IsSound r names clock w = record {
      sources = collect-IsSource r clock r.scache.alerts w.sources;
      entries = w.entries;
      live = w.live;
      unlimited = w.unlimited;
    }

    gc_callback-IsSound :
        (as' : List Alert) (r : InhibitRule F) → IsSound Met r → IsSound Met (gc_callback lib as' r)
    unfolding gc_callback
    gc_callback-IsSound [] r w = w
    gc_callback-IsSound (a ∷ as') r w = gc_callback-IsSound as' _ (record {
      sources = w.sources;
      entries = All-erase (IsEntry Met r) (fingerprint_equals lib r a.labels) r.sindex w.entries;
      live = w.live;
      unlimited = w.unlimited;
    })

    Step-IsSound :
        {r s : InhibitRule F} (step : Step r s)
        → ((l : LabelSet) → Handles step l → Met l)
        → IsSound Met r
        → IsSound Met s
    Step-IsSound {r = r} (by_set a now m) h w = set_cache-IsSound r a now m (h a.labels refl) w
    Step-IsSound {r = r} (by_index a) h w = update_index-IsSound r a (h a.labels refl) w
    Step-IsSound {r = r} (by_gc names clock) h w = gc-IsSound r names clock w
    Step-IsSound {r = r} (by_callback as') h w = gc_callback-IsSound as' r w

    pub Reach-IsSound :
        {r s : InhibitRule F} (steps : Reach r s)
        → ((l : LabelSet) → Meets steps l → Met l)
        → IsSound Met r
        → IsSound Met s
    Reach-IsSound start h w = w
    Reach-IsSound (after before step) h w =
        Step-IsSound step (λ l q. h l (inr q)) (Reach-IsSound before (λ l q. h l (inl q)) w)

  -- A rule as `NewInhibitRule` makes it.
  pub record IsNew (r : InhibitRule F) : Type 0 where
    pub no_alerts : r.scache ≡ new_alerts
    pub no_entries : r.sindex ≡ []

  pub IsNew-IsSound : (Met : LabelSet → Type 0) (r : InhibitRule F) → IsNew r → IsSound Met r
  unfolding new_alerts
  IsNew-IsSound Met r n = record {
    sources = rw n.no_alerts tt;
    entries = rw n.no_entries tt;
    live = rw n.no_alerts;
    unlimited = rw n.no_alerts;
  }

  NewIfAny : Option (InhibitRule F) → Type 0
  NewIfAny none = Unit
  NewIfAny (some r) = IsNew r

  new_rule-NewIfAny : (compile : Compile) (cr : InhibitConfig) → NewIfAny (new_rule compile cr)
  unfolding new_rule NewIfAny
  new_rule-NewIfAny compile cr =
      elim (Option-cases
        (side_matchers compile cr.source_match cr.source_match_re cr.source_matchers)) [
          | inl n ↦ rw (n, new_rule) tt
          | inr (source, p) ↦
              elim (Option-cases
                (side_matchers compile cr.target_match cr.target_match_re cr.target_matchers)) [
                  | inl n ↦ rw (p, n, new_rule) tt
                  | inr (target, q) ↦
                      rw (p, q, new_rule) (record { no_alerts = refl; no_entries = refl })
                ]
        ]

  pub new_rule-IsNew :
      (compile : Compile) (cr : InhibitConfig) {r : InhibitRule F}
      → new_rule compile cr ≡ some r
      → IsNew r
  unfolding NewIfAny
  new_rule-IsNew compile cr h = subst NewIfAny h (new_rule-NewIfAny compile cr)
