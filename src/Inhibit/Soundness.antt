-- ===== src/Inhibit/Soundness.antt =====
-- `Mutes` of inhibit/inhibit.go: what an inhibited label set is inhibited by.
use codestra_alertmanager.Prelude.{
  true, false, Option, none, some, List, [], ◌∷◌, ◌&&◌, String, string_eq, ◌≡◌, refl, ◌∙◌, ap, sym,
  subst, arith, All, Comparable, Option-cases, Bool-cases, inl, inr,
}
use Prim.{tt}
use codestra_alertmanager.Prelude.Maps.{lookup, lookup-insert, All-lookup}
use codestra_alertmanager.Clock.{Time}
use codestra_alertmanager.Labels.{LabelSet, matches_all, label}
use codestra_alertmanager.Alert.{Alert}
use codestra_alertmanager.Store.{Library, get}
use codestra_alertmanager.Inhibit.{
  InhibitRule, NameSet, fingerprint_equals, equal_set, find_equal_source_alert, has_equal, mutes_by,
  mutes,
}
use codestra_alertmanager.Inhibit.Cache.{
  IsSound, IsSource, IsEntry, Meets, Reach, Reach-IsSound, IsNew, IsNew-IsSound,
}

or_empty : Option String → String
or_empty none = ""
or_empty (some v) = v

label-lookup : (n : String) (lset : LabelSet) → label n lset ≡ or_empty (lookup n lset)
unfolding label or_empty
label-lookup n lset = elim (Option-cases (lookup n lset)) [
  | inl q ↦ rw (q, label) refl
  | inr (v, q) ↦ rw (q, label) refl
]

pub label_same :
    (a b : LabelSet)
    → ((n : String) → lookup n a ≡ lookup n b)
    → (n : String) → label n a ≡ label n b
label_same a b h n = label-lookup n a ∙ ap or_empty (h n) ∙ sym (label-lookup n b)

pub lookup-equal_set :
    (names : NameSet) (lset : LabelSet) (n : String)
    → lookup n names ≡ some tt
    → lookup n (equal_set names lset) ≡ some (label n lset)
unfolding lookup
lookup-equal_set [] lset n h = absurd (ground (arith, h))
lookup-equal_set ((first, u) ∷ names) lset n h = ground (
  arith,
  h,
  lookup-insert first n (label first lset) (equal_set names lset),
  string_eq.beq_iff first n,
  lookup-equal_set names lset n,
)

pub equal_set_same :
    (names : NameSet) (a b : LabelSet)
    → ((n : String) → lookup n a ≡ lookup n b)
    → equal_set names a ≡ equal_set names b
equal_set_same [] a b h = refl
equal_set_same ((first, u) ∷ names) a b h =
    simp (label_same a b h first, equal_set_same names a b h)

module _ {F : Type 0} ⦃e : Comparable F⦄ (lib : Library F) where
  -- The fingerprints tell apart the label sets that the rule has met, and tell the `equal` labels of
  -- these from those of `lset`. Nothing is said of any other label sets.
  pub record IsToldApart (Met : LabelSet → Type 0) (r : InhibitRule F) (lset : LabelSet)
      : Type 0 where
    pub alerts :
        (a b : LabelSet)
        → Met a
        → Met b
        → lib.fingerprint a ≡ lib.fingerprint b
        → (n : String) → lookup n a ≡ lookup n b
    pub equals :
        (a : LabelSet)
        → Met a
        → fingerprint_equals lib r a ≡ fingerprint_equals lib r lset
        → (n : String) → lookup n (equal_set r.equal a) ≡ lookup n (equal_set r.equal lset)

  -- A cached source alert of the rule, under the fingerprint `fp`, inhibits the label set.
  pub record Inhibits (r : InhibitRule F) (lset : LabelSet) (now : Time) (fp : F) : Type 0 where
    pub alert : Alert
    pub cached : get r.scache fp ≡ some alert
    pub firing : lib.resolved_at alert now ≡ false
    pub source : matches_all r.source alert.labels ≡ true
    pub target : matches_all r.target lset ≡ true
    pub one_sided : (matches_all r.source lset && matches_all r.target alert.labels) ≡ false
    pub equal : (n : String) → lookup n r.equal ≡ some tt → label n alert.labels ≡ label n lset

  -- What `findEqualSourceAlert` returns is cached, firing, and has the fingerprint of the index.
  pub find_lem :
      (r : InhibitRule F) (lset : LabelSet) (now : Time) (a : Alert)
      → find_equal_source_alert lib r lset now ≡ some a
      → (fp : F) × (lookup (fingerprint_equals lib r lset) r.sindex ≡ some fp)
        × (get r.scache fp ≡ some a)
        × (lib.resolved_at a now ≡ false)
  unfolding find_equal_source_alert
  find_lem r lset now a h = elim (Option-cases (lookup (fingerprint_equals lib r lset) r.sindex)) [
    | inl n ↦ absurd (ground (arith, h, n))
    | inr (fp, p) ↦ elim (Option-cases (get r.scache fp)) [
      | inl n ↦ absurd (ground (arith, h, p, n))
      | inr (b, q) ↦ (fp, p, ground (arith, h, p, q), ground (arith, h, p, q))
    ]
  ]

  -- The labels that the rule wants equal are so, where the two sets of them agree.
  equal_labels :
      (r : InhibitRule F) (a b : LabelSet)
      → ((n : String) → lookup n (equal_set r.equal a) ≡ lookup n (equal_set r.equal b))
      → (n : String) → lookup n r.equal ≡ some tt
      → label n a ≡ label n b
  equal_labels r a b h n l =
      ground (arith, lookup-equal_set r.equal a n l, lookup-equal_set r.equal b n l, h n)

  find-Inhibits :
      (Met : LabelSet → Type 0) (r : InhibitRule F) (lset : LabelSet) (now : Time) (a : Alert)
      → IsToldApart Met r lset
      → IsSound lib Met r
      → matches_all r.target lset ≡ true
      → find_equal_source_alert lib r lset now ≡ some a
      → (matches_all r.source lset && matches_all r.target a.labels) ≡ false
      → Inhibits r lset now (lib.fingerprint a.labels)
  unfolding get
  find-Inhibits Met r lset now a ids w t h one =
      let (fp, p, q, f) = find_lem r lset now a h in
      let (same, source, met) = All-lookup (IsSource lib Met r) fp r.scache.alerts q w.sources in
      let (other, eq_same, fp_same, other_met) =
        All-lookup (IsEntry lib Met r) (fingerprint_equals lib r lset) r.sindex p w.entries in
      record {
        alert = a;
        cached = rw same q;
        firing = f;
        source = source;
        target = t;
        one_sided = one;
        equal = λ n l.
            label_same a.labels other (ids.alerts a.labels other met other_met (same ∙ sym fp_same))
              n
            ∙ equal_labels r other lset (ids.equals other other_met eq_same) n l;
      }

  mutes_by-Inhibits :
      (Met : LabelSet → Type 0) (r : InhibitRule F) (lset : LabelSet) (now : Time) (fp : F)
      → IsToldApart Met r lset
      → IsSound lib Met r
      → mutes_by lib r lset now ≡ some fp
      → Inhibits r lset now fp
  unfolding has_equal
  mutes_by-Inhibits Met r lset now fp ids w h = elim (Bool-cases (matches_all r.target lset)) [
    | inr out ↦ absurd (ground (arith, h, out))
    | inl t ↦ elim (Option-cases (find_equal_source_alert lib r lset now)) [
      | inl n ↦ absurd (ground (arith, h, t, n))
      | inr (a, q) ↦
          let one : (matches_all r.source lset && matches_all r.target a.labels) ≡ false =
            ground (arith, h, t, q) in
          let same : lib.fingerprint a.labels ≡ fp = ground (arith, h, t, q) in
          subst (Inhibits r lset now) same (find-Inhibits Met r lset now a ids w t q one)
    ]
  ]

  -- A rule of the list that has a property.
  pub data Some (P : InhibitRule F → Type 0) : List (InhibitRule F) → Type 0 where
    here : {r : InhibitRule F} {rules : List (InhibitRule F)} → P r → Some P (r ∷ rules)
    there : {r : InhibitRule F} {rules : List (InhibitRule F)} → Some P rules → Some P (r ∷ rules)

  -- The rule has come from one of `NewInhibitRule` by steps of the inhibitor.
  abbrev pub IsRunning : InhibitRule F → Type 0
  IsRunning r = (fresh : InhibitRule F) × IsNew lib fresh × Reach lib fresh r

  -- The label sets of the alerts that the rule has stored or indexed on its way.
  abbrev pub HasMet : (r : InhibitRule F) → IsRunning r → LabelSet → Type 0
  HasMet r (fresh, n, steps) = Meets lib steps

  pub IsRunning-IsSound : (r : InhibitRule F) (run : IsRunning r) → IsSound lib (HasMet r run) r
  IsRunning-IsSound r (fresh, n, steps) =
      Reach-IsSound lib (Meets lib steps) steps (λ l q. q)
        (IsNew-IsSound lib (Meets lib steps) fresh n)

  -- In each of the rules, the fingerprints tell apart the label sets in play.
  abbrev pub NoneCollide : LabelSet → (rules : List (InhibitRule F)) → All IsRunning rules → Type 0
  NoneCollide lset [] running = Unit
  NoneCollide lset (r ∷ rules) running =
      IsToldApart (HasMet r running.0) r lset × NoneCollide lset rules running.1

  -- When `Mutes` answers with a fingerprint, some rule of the inhibitor has that alert in its
  -- cache: the alert is not resolved at the time of the call and matches the source side, the
  -- label set matches the target side, not both match both sides, and their labels agree where the
  -- rule wants them equal. The rules have come from new ones by steps of their goroutines in any
  -- order. In each rule, two label sets that those steps have stored or indexed have the same
  -- labels if they have one fingerprint, and the labels that the rule wants equal are the same in
  -- one of them and in the given label set if the fingerprints of these labels agree.
  pub mutes-Inhibits :
      (rules : List (InhibitRule F)) (lset : LabelSet) (now : Time) (fp : F)
      (running : All IsRunning rules)
      → NoneCollide lset rules running
      → mutes lib rules lset now ≡ some fp
      → Some (λ r. Inhibits r lset now fp) rules
  unfolding mutes
  mutes-Inhibits [] lset now fp running apart h = absurd (ground (arith, h))
  mutes-Inhibits (r ∷ rules) lset now fp running apart h =
      elim (Option-cases (mutes_by lib r lset now)) [
        | inl n ↦ there (mutes-Inhibits rules lset now fp running.1 apart.1 (ground (arith, h, n)))
        | inr (found, q) ↦
            let same : found ≡ fp = ground (arith, h, q) in
            here (
              mutes_by-Inhibits (HasMet r running.0) r lset now fp apart.0
                (IsRunning-IsSound r running.0) (q ∙ ap some same))
      ]
