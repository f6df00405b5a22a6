-- ===== src/Notify/Intervals/Passing.antt =====
-- The two time stages of notify/mute.go over the intervener: which alerts pass.
use Prim.Native.String.{String}
use codestra_alertmanager.Prelude.{
  ◌≡◌, refl, ap, ◌∙◌, Bool, true, false, not, ◌&&◌, ◌||◌, Option, some, List, [], ◌∷◌,
  if◌then◌else◌, string_eq, arith, Bool-cases, inl, inr,
}
use codestra_alertmanager.Prelude.Maps.{Map}
use codestra_alertmanager.Silence.Data.{is_nil}
use codestra_alertmanager.Clock.{Time}
use codestra_alertmanager.Alert.{Alert}
use codestra_alertmanager.TimeInterval.{
  TimeInterval, Calendar, Answer, unknown_interval, contained, intervener_mutes,
}
use codestra_alertmanager.TimeInterval.Muting.{
  AnswerFor, intervener_mutes-AnswerFor, any_contains, all_known,
}
use codestra_alertmanager.Notify.Stages.{Context, Outcome}
use codestra_alertmanager.Notify.Pipeline.{pass, multi_stage}
use codestra_alertmanager.Notify.Pipeline.Steps.{
  multi_stage-empty, multi_stage-nil, multi_stage-next,
}
use codestra_alertmanager.Notify.Intervals.{
  Marker, time_mute_stage, time_active_stage, mute_as, mute_at, active_as, active_at, active_route,
  active_group, active_names, mute_route, mute_group, mute_names,
}

-- The context of a group as the dispatcher sets it, with the names of its intervals.
pub record HasGroup (ctx : Context) (route gkey : String) (now : Time) (active muted : List String)
    : Type 0 where
  pub has_route : ctx.route_id ≡ some route
  pub has_key : ctx.group_key ≡ some gkey
  pub has_now : ctx.now ≡ some now
  pub has_active : ctx.active_time_intervals ≡ some active
  pub has_muted : ctx.mute_time_intervals ≡ some muted

both_empty : (b : Bool) (xs : List Alert) → is_nil xs ≡ true → [] ≡ (if b then [] else xs)
both_empty b [] h = ground arith
both_empty b (x ∷ xs) h = absurd (ground (arith, h))

empty_both : (b : Bool) (xs : List Alert) → is_nil xs ≡ true → [] ≡ (if b then xs else [])
empty_both b [] h = ground arith
empty_both b (x ∷ xs) h = absurd (ground (arith, h))

if-if :
    (m a : Bool) (xs : List Alert)
    → (if m then [] else if a then xs else []) ≡ (if a && not m then xs else [])
if-if true true xs = refl
if-if true false xs = refl
if-if false true xs = refl
if-if false false xs = refl

module _ {W : Type 0} (set_muted : Marker W) (intervals : Map String (List TimeInterval))
    (calendar : Calendar) where
  abbrev pub muter : List String → Time → Answer
  muter names now = intervener_mutes intervals calendar names now

  mute_as-pass :
      (w : W) (ctx : Context) (alerts : List Alert) (route gkey : String) (now : Time)
      (names : List String) (a : Answer)
      → all_known intervals calendar now names ≡ true
      → AnswerFor intervals calendar now names a
      → (mute_as muter set_muted w ctx alerts route gkey a).1
        ≡ pass ctx (if any_contains intervals calendar now names then [] else alerts)
  mute_as-pass w ctx alerts route gkey now names (unknown_interval n) known (unknown, h) =
      absurd (ground (arith, known, unknown))
  mute_as-pass w ctx alerts route gkey now names (contained by) known (all, h) =
      elim (Bool-cases (any_contains intervals calendar now names)) [
        | inl q ↦ rw (h, q) refl
        | inr q ↦ rw (h, q) refl
      ]

  active_as-pass :
      (w : W) (ctx : Context) (alerts : List Alert) (route gkey : String) (now : Time)
      (names shown : List String) (a : Answer)
      → all_known intervals calendar now names ≡ true
      → AnswerFor intervals calendar now names a
      → (active_as muter set_muted w ctx alerts route gkey shown a).1
        ≡ pass ctx (if any_contains intervals calendar now names then alerts else [])
  active_as-pass w ctx alerts route gkey now names shown (unknown_interval n) known (unknown, h) =
      absurd (ground (arith, known, unknown))
  active_as-pass w ctx alerts route gkey now names shown (contained by) known (all, h) =
      elim (Bool-cases (any_contains intervals calendar now names)) [
        | inl q ↦ rw (h, q) refl
        | inr q ↦ rw (h, q) refl
      ]

  mute_at-pass :
      (w : W) (ctx : Context) (alerts : List Alert) (route gkey : String) (now : Time)
      (names : List String)
      → all_known intervals calendar now names ≡ true
      → (mute_at muter set_muted w ctx alerts route gkey names (some now)).1
        ≡ pass ctx (if any_contains intervals calendar now names then [] else alerts)
  mute_at-pass w ctx alerts route gkey now [] known = refl
  mute_at-pass w ctx alerts route gkey now (n ∷ names) known =
      mute_as-pass w ctx alerts route gkey now (n ∷ names)
        (intervener_mutes intervals calendar (n ∷ names) now) known
        (intervener_mutes-AnswerFor intervals calendar now (n ∷ names))

  -- The group is active: no interval is asked for, or one of them contains the time.
  abbrev pub is_active : Time → List String → Bool
  is_active now names = is_nil names || any_contains intervals calendar now names

  active_at-pass :
      (w : W) (ctx : Context) (alerts : List Alert) (route gkey : String) (now : Time)
      (names : List String)
      → all_known intervals calendar now names ≡ true
      → (active_at muter set_muted w ctx alerts route gkey names (some now)).1
        ≡ pass ctx (if is_active now names then alerts else [])
  active_at-pass w ctx alerts route gkey now [] known = refl
  active_at-pass w ctx alerts route gkey now (n ∷ names) known =
      active_as-pass w ctx alerts route gkey now (n ∷ names) (n ∷ names)
        (intervener_mutes intervals calendar (n ∷ names) now) known
        (intervener_mutes-AnswerFor intervals calendar now (n ∷ names))

  module _ (ctx : Context) (route gkey : String) (now : Time) (active muted : List String)
      (g : HasGroup ctx route gkey now active muted) where
    time_mute_stage-pass :
        (w : W) (alerts : List Alert)
        → all_known intervals calendar now muted ≡ true
        → (time_mute_stage muter set_muted w ctx alerts).1
          ≡ pass ctx (if any_contains intervals calendar now muted then [] else alerts)
    unfolding time_mute_stage
    time_mute_stage-pass w alerts known =
        ap (λ (o : Option String). (mute_route muter set_muted w ctx alerts o).1) g.has_route
        ∙ ap (λ (o : Option String). (mute_group muter set_muted w ctx alerts route o).1) g.has_key
        ∙ ap
            (λ (o : Option (List String)). (mute_names muter set_muted w ctx alerts route gkey o).1)
            g.has_muted
        ∙ ap (λ (o : Option Time). (mute_at muter set_muted w ctx alerts route gkey muted o).1)
            g.has_now
        ∙ mute_at-pass w ctx alerts route gkey now muted known

    time_active_stage-pass :
        (w : W) (alerts : List Alert)
        → all_known intervals calendar now active ≡ true
        → (time_active_stage muter set_muted w ctx alerts).1
          ≡ pass ctx (if is_active now active then alerts else [])
    unfolding time_active_stage
    time_active_stage-pass w alerts known =
        ap (λ (o : Option String). (active_route muter set_muted w ctx alerts o).1) g.has_route
        ∙ ap (λ (o : Option String). (active_group muter set_muted w ctx alerts route o).1)
            g.has_key
        ∙ ap
            (λ (o : Option (List String)).
              (active_names muter set_muted w ctx alerts route gkey o).1)
            g.has_active
        ∙ ap (λ (o : Option Time). (active_at muter set_muted w ctx alerts route gkey active o).1)
            g.has_now
        ∙ active_at-pass w ctx alerts route gkey now active known

    last_stage :
        (w : W) (alerts : List Alert)
        → all_known intervals calendar now muted ≡ true
        → (multi_stage (time_mute_stage muter set_muted ∷ []) w ctx alerts).1
          ≡ pass ctx (if any_contains intervals calendar now muted then [] else alerts)
    last_stage w alerts known =
        let stage = time_mute_stage muter set_muted in
        let passed = time_mute_stage-pass w alerts known in
        elim (Bool-cases (is_nil alerts)) [
          | inl none_in ↦
              ap (λ (p : W × Outcome). p.1) (multi_stage-nil stage [] w ctx alerts none_in)
              ∙ ap (pass ctx)
                  (both_empty (any_contains intervals calendar now muted) alerts none_in)
          | inr some_in ↦
              ap (λ (p : W × Outcome). p.1)
                (multi_stage-next stage [] w ctx alerts some_in (ap (λ (o : Outcome). o.err) passed)
                  ∙ multi_stage-empty (stage w ctx alerts).0 (stage w ctx alerts).1.ctx
                      (stage w ctx alerts).1.alerts)
              ∙ ap (λ (o : Outcome). pass o.ctx o.alerts) passed
        ]

    -- For a group whose context has a route ID, a group key, a time and the names of its
    -- intervals, all of them configured, `TimeActiveStage` followed by `TimeMuteStage` over the
    -- intervener return no error, and pass all alerts if no active interval is asked for or one of
    -- them contains the time, and no mute interval contains it; else they pass none.
    pub time_stages-pass :
        (w : W) (alerts : List Alert)
        → all_known intervals calendar now active ≡ true
        → all_known intervals calendar now muted ≡ true
        → (multi_stage
            (time_active_stage muter set_muted ∷ time_mute_stage muter set_muted ∷ [])
            w
            ctx
            alerts).1
          ≡ pass ctx (
              if is_active now active && not (any_contains intervals calendar now muted)
              then alerts
              else [])
    time_stages-pass w alerts known_active known_muted =
        let first = time_active_stage muter set_muted in
        let second = time_mute_stage muter set_muted in
        let passed = time_active_stage-pass w alerts known_active in
        let v = (first w ctx alerts).0 in
        elim (Bool-cases (is_nil alerts)) [
          | inl none_in ↦
              ap (λ (p : W × Outcome). p.1)
                (multi_stage-nil first (second ∷ []) w ctx alerts none_in)
              ∙ ap (pass ctx) (
                  empty_both
                    (is_active now active && not (any_contains intervals calendar now muted)) alerts
                    none_in)
          | inr some_in ↦
              ap (λ (p : W × Outcome). p.1)
                (multi_stage-next first (second ∷ []) w ctx alerts some_in
                  (ap (λ (o : Outcome). o.err) passed))
              ∙ ap (λ (o : Outcome). (multi_stage (second ∷ []) v o.ctx o.alerts).1) passed
              ∙ last_stage v (if is_active now active then alerts else []) known_muted
              ∙ ap (pass ctx)
                  (if-if (any_contains intervals calendar now muted) (is_active now active) alerts)
        ]
