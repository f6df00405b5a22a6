-- ===== src/Examples/Inhibition.antt =====
-- A rule of inhibit/inhibit.go at concrete alerts.
use Prim.{tt}
use Prim.Native.String.{String}
use codestra_alertmanager.Prelude.{
  ℕ, ◌+◌, ◌*◌, ◌∙◌, inl, inr, if◌then◌else◌, nat_eq, ◌≡◌, refl, sym, ap, Bool, true, false, not,
  ◌&&◌, none, some, [], ◌∷◌, arith, string_eq, ◌==◌, nat_beq, leb,
}
use codestra_alertmanager.Prelude.Maps.{lookup, insert, erase}
use codestra_alertmanager.Clock.{Time}
use codestra_alertmanager.Labels.{
  LabelSet, label, equal, Compile, matches_all, matches, new_matcher,
}
use codestra_alertmanager.Alert.{Alert}
use codestra_alertmanager.Store.{Library, get, set, gc, new_alerts, gc_alerts, gc_limit_buckets}
use codestra_alertmanager.Inhibit.{
  InhibitRule, InhibitConfig, new_rule, process_alert, process_rule, mutes, mutes_by, gc_rule,
  gc_callback, side_matchers, update_index, has_equal, find_equal_source_alert, equal_set,
}
use codestra_alertmanager.Inhibit.Cache.{new_rule-IsNew, start, after, by_set, by_index}
use codestra_alertmanager.Inhibit.Soundness.{
  IsRunning, IsToldApart, HasMet, Inhibits, Some, here, mutes-Inhibits,
}
use codestra_alertmanager.Inhibit.Current.{ResolvesAtEnd, Aims, process_alert-mutes}
use codestra_alertmanager.Inhibit.Removal.{gc_rule-mutes_by}
use codestra_alertmanager.Dispatch.Route.Config.{old_matchers}

abbrev bit : Bool → ℕ
bit b = if b then 1 else 0

-- A fingerprint of three bits: many label sets share one.
abbrev library : Library ℕ
library = record {
  fingerprint = λ lset.
      bit (label "instance" lset == "a")
      + 2 * bit (label "instance" lset == "b")
      + 4 * bit (label "cluster" lset == "x");
  name = λ lset. label "alertname" lset;
  resolved_at = λ a t. not (nat_beq a.ends_at 0) && leb a.ends_at t;
}

at_end : ResolvesAtEnd library
at_end a t = refl

abbrev compile : Compile
compile pattern = some (λ s. s == pattern)

-- Critical alerts of a cluster inhibit its warnings.
abbrev configured : InhibitConfig
configured = record {
  name = "critical";
  source_match = ("severity", "critical") ∷ [];
  source_match_re = [];
  source_matchers = [];
  target_match = ("severity", "warning") ∷ [];
  target_match_re = [];
  target_matchers = [];
  equal_names = "cluster" ∷ [];
}

abbrev rule : InhibitRule ℕ
rule = record {
  name = "critical";
  source = record { type = equal; name = "severity"; value = "critical"; re = λ s. false } ∷ [];
  target = record { type = equal; name = "severity"; value = "warning"; re = λ s. false } ∷ [];
  equal = ("cluster", tt) ∷ [];
  scache = new_alerts;
  sindex = [];
}

rule_is_made : new_rule compile configured ≡ some rule
unfolding new_rule side_matchers old_matchers new_matcher insert
rule_is_made = refl

rule-IsRunning : IsRunning library rule
rule-IsRunning = (rule, new_rule-IsNew library compile configured rule_is_made, start)

abbrev critical : String → Time → Alert
critical i t = record {
  labels = ("severity", "critical") ∷ ("cluster", "x") ∷ ("instance", i) ∷ [];
  annotations = [];
  starts_at = 5;
  ends_at = t;
  generator_url = "";
  updated_at = 10;
  timeout = false;
}

rule_takes : matches_all rule.source (critical "a" 30).labels ≡ true
unfolding matches_all matches label lookup
rule_takes = refl

abbrev warning_set : LabelSet
warning_set = ("severity", "warning") ∷ ("cluster", "x") ∷ []

aims : Aims library (critical "a" 30) warning_set 20 rule
unfolding matches_all matches label lookup
aims = record {
  source = refl;
  firing = omega arith;
  target = refl;
  one_sided = refl;
  equal = λ n h.
      let same : "cluster" ≡ n = ground (arith, h, string_eq.beq_iff "cluster" n) in
      rw (sym same) refl;
}

process_alert-mutes_example :
    (fp : ℕ) × (mutes library
        (process_alert library (critical "a" 30) 10 (rule ∷ []))
        warning_set
        20
      ≡ some fp)
process_alert-mutes_example =
    process_alert-mutes library (rule ∷ []) (critical "a" 30) 10 warning_set 20 at_end
      (rule-IsRunning, tt) (here aims)

-- The source alert is stored, and then indexed.
abbrev one_source : InhibitRule ℕ
one_source =
    update_index library (record rule { scache = (set library (critical "a" 30) 10 rule.scache).0 })
      (critical "a" 30)

abbrev one_source_run : IsRunning library one_source
one_source_run = (
  rule,
  new_rule-IsNew library compile configured rule_is_made,
  after (after start (by_set (critical "a" 30) 10 rule_takes)) (by_index (critical "a" 30)),
)

one_source-HasMet :
    (l : LabelSet) → HasMet library one_source one_source_run l → l ≡ (critical "a" 30).labels
one_source-HasMet l (inl (inl impossible)) = absurd impossible
one_source-HasMet l (inl (inr p)) = p
one_source-HasMet l (inr p) = p

one_source-IsToldApart :
    IsToldApart library (HasMet library one_source one_source_run) one_source warning_set
unfolding update_index set get insert matches_all matches label lookup new_alerts
one_source-IsToldApart = record {
  alerts = λ a b p q h n. ap (lookup n) (one_source-HasMet a p ∙ sym (one_source-HasMet b q));
  equals =
      λ a p h n. ap (λ l. lookup n (equal_set (("cluster", tt) ∷ []) l)) (one_source-HasMet a p);
}

muted : mutes library (one_source ∷ []) warning_set 20 ≡ some 5
unfolding mutes has_equal find_equal_source_alert update_index set get insert matches_all matches
    label lookup new_alerts
muted = refl

mutes-Inhibits_example : Some library (λ r. Inhibits library r warning_set 20 5) (one_source ∷ [])
mutes-Inhibits_example =
    mutes-Inhibits library (one_source ∷ []) warning_set 20 5 (one_source_run, tt)
      (one_source-IsToldApart, tt) muted

-- The second source ends first; both are cached, and the index has the one that ends last.
abbrev two_sources : InhibitRule ℕ
two_sources =
    process_rule library (critical "b" 30) 11 (process_rule library (critical "a" 40) 10 rule)

abbrev collected : InhibitRule ℕ
collected = gc_rule library (λ name. 35) (λ fp. 35) two_sources

cached : get two_sources.scache 6 ≡ some (critical "b" 30)
unfolding process_rule update_index set get insert matches_all matches label lookup new_alerts
cached = refl

still_cached : get collected.scache 5 ≡ some (critical "a" 40)
unfolding process_rule update_index set get insert matches_all matches label lookup new_alerts
    gc_rule gc gc_alerts gc_limit_buckets gc_callback erase
still_cached = refl

equal_names :
    (n : String)
    → lookup n two_sources.equal ≡ some tt
    → label n (critical "b" 30).labels ≡ label n warning_set
unfolding process_rule update_index set get insert matches_all matches label lookup new_alerts
equal_names n h =
    let same : "cluster" ≡ n = ground (arith, h, string_eq.beq_iff "cluster" n) in
    rw (sym same) refl

gc_rule-mutes_by_example : mutes_by library collected warning_set 36 ≡ none
gc_rule-mutes_by_example =
    gc_rule-mutes_by library two_sources (λ name. 35) (λ fp. 35) 6 (critical "b" 30) warning_set 36
      cached refl equal_names
