-- ===== src/Inhibit.antt =====
-- inhibit/: the rules by which firing source alerts mute target alerts, and the inhibitor.
--
-- A rule keeps the source alerts in a store, and an index from the fingerprint of their `equal` labels
-- to the fingerprint of one of them. `NewMatcher` panics on a pattern that does not compile: `none`
-- in `new_rule`. `mutes` gives the fingerprint that it leaves in the marker, if it mutes. The store of
-- a rule has no limit, so the clock that `Set` would read for a bucket is never used.
pub mod Cache
pub mod Soundness
pub mod Current
pub mod Removal
use codestra_alertmanager.Prelude.{
  ℕ, Bool, true, false, not, Option, none, some, List, [], ◌∷◌, ◌++◌, ◌&&◌, String, string_eq,
  if◌then◌else◌, Comparable, ◌==◌,
}
use Prim.{tt}
use codestra_alertmanager.Prelude.Maps.{Map, lookup, insert, erase}
use codestra_alertmanager.Clock.{Time}
use codestra_alertmanager.Labels.{LabelSet, Matcher, Compile, equal, regexp, matches_all, label}
use codestra_alertmanager.Alert.{Alert}
use codestra_alertmanager.Store.{Library, Alerts, Error, get, set, gc, new_alerts}
use codestra_alertmanager.Dispatch.Route.Config.{old_matchers}

-- `map[model.LabelName]struct{}`
abbrev pub NameSet : Type 0
NameSet = Map {0, 0} String Unit

-- `InhibitRule` of the configuration.
pub record InhibitConfig : Type 0 where
  pub name : String
  pub source_match : Map String String
  pub source_match_re : Map String String
  pub source_matchers : List Matcher
  pub target_match : Map String String
  pub target_match_re : Map String String
  pub target_matchers : List Matcher
  pub equal_names : List String

pub record InhibitRule (F : Type 0) : Type 0 where
  pub name : String
  pub source : List Matcher
  pub target : List Matcher
  pub equal : NameSet
  pub scache : Alerts F
  pub sindex : Map F F

-- The three kinds of matchers of one side of a rule.
unfoldable pub side_matchers :
    Compile → Map String String → Map String String → List Matcher → Option (List Matcher)
side_matchers compile match match_re matchers = elim (old_matchers compile equal match) [
  | none ↦ none
  | some ms ↦ elim (old_matchers compile regexp match_re) [
    | none ↦ none
    | some rs ↦ some ((ms ++ rs) ++ matchers)
  ]
]

abbrev pub name_set : List String → NameSet → NameSet
name_set [] m = m
name_set (n ∷ ns) m = name_set ns (insert n tt m)

-- `NewInhibitRule`
unfoldable pub new_rule : {F : Type 0} → Compile → InhibitConfig → Option (InhibitRule F)
new_rule compile cr =
    elim (side_matchers compile cr.source_match cr.source_match_re cr.source_matchers) [
      | none ↦ none
      | some source ↦
          elim (side_matchers compile cr.target_match cr.target_match_re cr.target_matchers) [
            | none ↦ none
            | some target ↦ some (record {
              name = cr.name;
              source = source;
              target = target;
              equal = name_set cr.equal_names [];
              scache = new_alerts;
              sindex = [];
            })
          ]
    ]

abbrev pub equal_set : NameSet → LabelSet → LabelSet
equal_set [] lset = []
equal_set ((n, u) ∷ names) lset = insert n (label n lset) (equal_set names lset)

module _ {F : Type 0} ⦃e : Comparable F⦄ (lib : Library F) where
  -- `fingerprintEquals`
  abbrev pub fingerprint_equals : InhibitRule F → LabelSet → F
  fingerprint_equals r lset = lib.fingerprint (equal_set r.equal lset)

  abbrev pub index_as : InhibitRule F → Alert → InhibitRule F
  index_as r a = record r {
    sindex = insert (fingerprint_equals r a.labels) (lib.fingerprint a.labels) r.sindex;
  }

  -- The new alert against the one that the index has, if the store still has that one.
  abbrev pub index_against : InhibitRule F → Alert → Option Alert → InhibitRule F
  index_against r a none = index_as r a
  index_against r a (some existing) = if lib.resolved_at existing a.ends_at then index_as r a else r

  -- `updateIndex`
  unfoldable pub update_index : InhibitRule F → Alert → InhibitRule F
  update_index r a = elim (lookup (fingerprint_equals r a.labels) r.sindex) [
    | none ↦ index_as r a
    | some indexed ↦
        if indexed == lib.fingerprint a.labels then r else index_against r a (get r.scache indexed)
  ]

  -- One round of the loop of `processAlert`; an error of `Set` skips the index.
  abbrev pub indexed_after : InhibitRule F → Alert → Alerts F × Option Error → InhibitRule F
  indexed_after r a (s, none) = update_index (record r { scache = s }) a
  indexed_after r a (s, some err) = record r { scache = s }

  unfoldable pub process_rule : Alert → Time → InhibitRule F → InhibitRule F
  process_rule a now r =
      if matches_all r.source a.labels then indexed_after r a (set lib a now r.scache) else r

  -- `processAlert`
  unfoldable pub process_alert : Alert → Time → List (InhibitRule F) → List (InhibitRule F)
  process_alert a now [] = []
  process_alert a now (r ∷ rules) = process_rule a now r ∷ process_alert a now rules

  -- `gcCallback`
  unfoldable pub gc_callback : List Alert → InhibitRule F → InhibitRule F
  gc_callback [] r = r
  gc_callback (a ∷ as') r =
      gc_callback as' (record r { sindex = erase (fingerprint_equals r a.labels) r.sindex })

  -- `GC` of the store of a rule, with its callback.
  unfoldable pub gc_rule : (String → Time) → (F → Time) → InhibitRule F → InhibitRule F
  gc_rule names clock r =
      let (s, deleted) = gc lib names clock r.scache in
      gc_callback deleted (record r { scache = s })

  -- The alert that the index leads to, unless it is resolved.
  abbrev pub unresolved : Time → Option Alert → Option Alert
  unresolved now none = none
  unresolved now (some a) = if lib.resolved_at a now then none else some a

  -- `findEqualSourceAlert`
  unfoldable pub find_equal_source_alert : InhibitRule F → LabelSet → Time → Option Alert
  find_equal_source_alert r lset now = elim (lookup (fingerprint_equals r lset) r.sindex) [
    | none ↦ none
    | some source ↦ unresolved now (get r.scache source)
  ]

  abbrev pub equal_unless : InhibitRule F → Bool → Option Alert → Option F
  equal_unless r exclude none = none
  equal_unless r exclude (some a) =
      if exclude && matches_all r.target a.labels then none else some (lib.fingerprint a.labels)

  -- `hasEqual`
  unfoldable pub has_equal : InhibitRule F → LabelSet → Bool → Time → Option F
  has_equal r lset exclude now = equal_unless r exclude (find_equal_source_alert r lset now)

  -- `Mutes`: the fingerprint of the alert that inhibits, if there is one.
  abbrev pub mutes_by : InhibitRule F → LabelSet → Time → Option F
  mutes_by r lset now =
      if matches_all r.target lset then has_equal r lset (matches_all r.source lset) now else none

  unfoldable pub mutes : List (InhibitRule F) → LabelSet → Time → Option F
  mutes [] lset now = none
  mutes (r ∷ rules) lset now =
      let rest = mutes rules lset now in
      elim (mutes_by r lset now) [ none ↦ rest | some fp ↦ some fp ]
