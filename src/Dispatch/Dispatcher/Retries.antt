-- ===== src/Dispatch/Dispatcher/Retries.antt =====
-- The loop of `groupAlert` of dispatch/dispatch.go ends.
use codestra_alertmanager.Prelude.{
  ℕ, ◌+◌, ◌-◌, ◌*◌, ◌<◌, ◌≤◌, Bool, true, false, Option, none, some, ◌≡◌, sym, subst, ap, arith,
  Comparable, if_elim, if◌then◌else◌, ltb,
}
use codestra_alertmanager.Prelude.Maps.{lookup}
use codestra_alertmanager.Clock.{Time}
use codestra_alertmanager.Store.{Library}
use codestra_alertmanager.Dispatch.Group.{Group, insert_alert}
use codestra_alertmanager.Dispatch.Dispatcher.{
  Dispatcher, Pc, Job, at, idle, loading, trying, checking, storing, joining, counting, starting,
  ended, inserted, created, over_limit, retry, loaded, points, joined, checked, swapped, stored,
  is_full, group_alert, Step, is_at_rest, started,
}
use codestra_alertmanager.Dispatch.Dispatcher.Covers.{own_goto}

-- A bound on the steps that a worker has still to take.
abbrev pub remaining : {P : Type 0} → Pc P → ℕ
remaining idle = 0
remaining (ended j r) = 0
remaining (starting j ag) = 1
remaining (counting j ag) = 2
remaining (joining j el ag retries) = 3 + 2 * (101 - retries)
remaining (storing j el ag retries) = 4 + 2 * (101 - retries)
remaining (checking j el) = 207
remaining (trying j el) = 208
remaining (loading j) = 209

remaining_bound : {P : Type 0} (pc : Pc P) → remaining pc ≤ 209
remaining_bound idle = ground arith
remaining_bound (ended j r) = ground arith
remaining_bound (starting j ag) = ground arith
remaining_bound (counting j ag) = ground arith
remaining_bound (joining j el ag retries) = omega arith
remaining_bound (storing j el ag retries) = omega arith
remaining_bound (checking j el) = ground arith
remaining_bound (trying j el) = ground arith
remaining_bound (loading j) = ground arith

module _ {P : Type 0} where
  remaining-retry :
      (j : Job P) (el : Option ℕ) (ag retries : ℕ)
      → remaining (retry j el ag retries) < 3 + 2 * (101 - retries)
  remaining-retry j el ag retries =
      if_elim (λ pc. remaining pc < 3 + 2 * (101 - retries)) (ltb 100 (retries + 1)) _ _
        (λ h. omega arith) (λ h. let n : retries < 100 = ground (arith, h) in omega (arith, n))

  remaining-loaded : (j : Job P) (o : Option ℕ) → remaining (loaded j o) < 209
  remaining-loaded j none = ground arith
  remaining-loaded j (some el) = ground arith

  remaining-goto :
      (w n : ℕ) (pc : Pc P) (ws : ℕ → Pc P) → remaining pc < n → remaining (at w pc ws w) < n
  remaining-goto w n pc ws h = subst (λ (x : Pc P). remaining x < n) (sym (own_goto w pc ws)) h

module _ {F P : Type 0} ⦃e : Comparable F⦄ ⦃p : Comparable P⦄ (lib : Library F) (limit : ℕ) where
  abbrev Fewer : ℕ → ℕ → Dispatcher F P → Type 0
  Fewer w n d = remaining (d.workers w) < n

  Fewer-joined :
      (w n : ℕ) (j : Job P) (g : ℕ) (otherwise : Pc P) (r : Group F × Bool) (d : Dispatcher F P)
      → 0 < n
      → remaining otherwise < n
      → Fewer w n (joined w j g otherwise r d)
  Fewer-joined w n j g otherwise (group, ok) d h k =
      remaining-goto w n (if ok then ended j (inserted g) else otherwise) d.workers (
        if_elim (λ (pc : Pc P). remaining pc < n) ok (ended j (inserted g)) otherwise (λ q. h)
          (λ q. k))

  Fewer-checked :
      (w : ℕ) (j : Job P) (el : Option ℕ) (now : Time) (b : Bool) (d : Dispatcher F P)
      → Fewer w 207 (checked lib limit w j el now b d)
  Fewer-checked w j el now true d =
      remaining-goto w 207 (ended j over_limit) d.workers (ground arith)
  Fewer-checked w j el now false d =
      remaining-goto w 207 (storing j el d.next 0) d.workers (ground arith)

  Fewer-swapped :
      (w : ℕ) (j : Job P) (ag retries : ℕ) (b : Bool) (d : Dispatcher F P)
      → Fewer w (4 + 2 * (101 - retries)) (swapped w j ag retries b d)
  Fewer-swapped w j ag retries true d =
      remaining-goto w (4 + 2 * (101 - retries)) (starting j ag) d.workers (omega arith)
  Fewer-swapped w j ag retries false d =
      let h = remaining-retry j none ag retries in
      remaining-goto w (4 + 2 * (101 - retries)) (retry j none ag retries) d.workers
        (omega (arith, h))

  Fewer-stored :
      (w : ℕ) (j : Job P) (ag retries : ℕ) (o : Option ℕ) (d : Dispatcher F P)
      → Fewer w (4 + 2 * (101 - retries)) (stored w j ag retries o d)
  Fewer-stored w j ag retries none d =
      remaining-goto w (4 + 2 * (101 - retries)) (counting j ag) d.workers (omega arith)
  Fewer-stored w j ag retries (some el) d =
      remaining-goto w (4 + 2 * (101 - retries)) (joining j el ag retries) d.workers (omega arith)

  Fewer-group_alert :
      (w : ℕ) (now : Time) (pc : Pc P) (d : Dispatcher F P)
      → is_at_rest pc ≡ false
      → Fewer w (remaining pc) (group_alert lib limit w now pc d)
  unfolding group_alert
  Fewer-group_alert w now idle d h = absurd (ground (arith, h))
  Fewer-group_alert w now (loading j) d h =
      remaining-goto w 209 (loaded j (lookup j.place d.groups)) d.workers
        (remaining-loaded j (lookup j.place d.groups))
  Fewer-group_alert w now (trying j el) d h =
      Fewer-joined w 208 j el (checking j (some el))
        (insert_alert lib j.alert now (d.heap el).group) d (ground arith) (ground arith)
  Fewer-group_alert w now (checking j el) d h = Fewer-checked w j el now (is_full limit d) d
  Fewer-group_alert w now (storing j (some el) ag retries) d h =
      Fewer-swapped w j ag retries (points j.place el d) d
  Fewer-group_alert w now (storing j none ag retries) d h =
      Fewer-stored w j ag retries (lookup j.place d.groups) d
  Fewer-group_alert w now (joining j el ag retries) d h =
      Fewer-joined w (3 + 2 * (101 - retries)) j el (retry j (some el) ag retries)
        (insert_alert lib j.alert now (d.heap el).group) d (omega arith)
        (remaining-retry j (some el) ag retries)
  Fewer-group_alert w now (counting j ag) d h =
      remaining-goto w 2 (starting j ag) d.workers (ground arith)
  Fewer-group_alert w now (starting j ag) d h =
      remaining-goto w 1 (ended j (created ag)) (started d.state ag d).workers (ground arith)
  Fewer-group_alert w now (ended j r) d h = absurd (ground (arith, h))

  -- Steps of the dispatcher in which a worker takes a number of its own and no new alert.
  pub data Trace (w : ℕ) (d : Dispatcher F P) : ℕ → Dispatcher F P → Type 0 where
    nothing : Trace w d 0 d
    own :
        {n : ℕ} {d' : Dispatcher F P} (now : Time)
        → Trace w d n d'
        → is_at_rest (d'.workers w) ≡ false
        → Trace w d (n + 1) (group_alert lib limit w now (d'.workers w) d')
    other :
        {n : ℕ} {d' d'' : Dispatcher F P}
        → Trace w d n d'
        → Step lib limit d' d''
        → d''.workers w ≡ d'.workers w
        → Trace w d n d''

  Trace-remaining :
      {w : ℕ} {d : Dispatcher F P} {n : ℕ} {d' : Dispatcher F P}
      → Trace w d n d'
      → n + remaining (d'.workers w) ≤ remaining (d.workers w)
  Trace-remaining nothing = omega arith
  Trace-remaining {w} (own {n} {d'} now t busy) =
      let before = Trace-remaining t in
      let less = Fewer-group_alert w now (d'.workers w) d' busy in omega (arith, before, less)
  Trace-remaining (other t step same) =
      let before = Trace-remaining t in let kept = ap remaining same in omega (arith, before, kept)

  -- However the steps of the others fall between its own, a worker takes at most 209 steps of
  -- `groupAlert` before it is at rest: the loop ends, by the bound on the retries.
  pub Trace-bound :
      {w : ℕ} {d : Dispatcher F P} {n : ℕ} {d' : Dispatcher F P}
      → Trace w d n d'
      → n + remaining (d'.workers w) ≤ 209
  Trace-bound {w} {d} t =
      let h = Trace-remaining t in let b = remaining_bound (d.workers w) in omega (arith, h, b)
