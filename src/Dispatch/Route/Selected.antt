-- ===== src/Dispatch/Route/Selected.antt =====
-- `Match` of dispatch/route.go against a specification by rules.
use codestra_alertmanager.Prelude.Membership.{In, In-append, In-left, In-right}
use codestra_alertmanager.Prelude.{
  ◌≡◌, refl, ◌⊎◌, ◌↔◌, inl, inr, Bool, true, false, not, List, [], ◌∷◌, ◌++◌, ◌&&◌, arith,
  if◌then◌else◌, Bool-cases,
}
use codestra_alertmanager.Labels.{LabelSet, matches_all}
use codestra_alertmanager.Silence.Data.{is_nil}
use codestra_alertmanager.Dispatch.Route.{
  RouteNode, Route, Routes, route, no_routes, one_more, node_of, or_self, match_route,
  match_children,
}

-- The route itself matches: not whether a child does.
abbrev pub takes : Route → LabelSet → Bool
takes (route n rs) lset = matches_all n.matchers lset

-- A child matches.
abbrev pub any_takes : Routes → LabelSet → Bool
any_takes no_routes lset = false
any_takes (one_more r rs) lset = if takes r lset then true else any_takes rs lset

-- A node is selected where all routes from the root down to it match and no earlier sibling of any of
-- them matches without continuing; and none of its children matches.
mutual
  pub data Selected (lset : LabelSet) : Route → RouteNode → Type 0 where
    itself :
        (n : RouteNode) (rs : Routes)
        → matches_all n.matchers lset ≡ true
        → any_takes rs lset ≡ false
        → Selected lset (route n rs) n
    below :
        (n m : RouteNode) (rs : Routes)
        → matches_all n.matchers lset ≡ true
        → SelectedIn lset rs m
        → Selected lset (route n rs) m

  pub data SelectedIn (lset : LabelSet) : Routes → RouteNode → Type 0 where
    first :
        (r : Route) (rs : Routes) (m : RouteNode)
        → Selected lset r m
        → SelectedIn lset (one_more r rs) m
    later :
        (r : Route) (rs : Routes) (m : RouteNode)
        → (takes r lset && not (node_of r).continues) ≡ false
        → SelectedIn lset rs m
        → SelectedIn lset (one_more r rs) m

is_nil-or_self : (n : RouteNode) (xs : List RouteNode) → is_nil (or_self n xs) ≡ false
is_nil-or_self n [] = refl
is_nil-or_self n (x ∷ xs) = refl

is_nil-match_route :
    (r : Route) (lset : LabelSet) → is_nil (match_route r lset) ≡ not (takes r lset)
unfolding match_route
is_nil-match_route (route n rs) lset = ground (arith, is_nil-or_self n (match_children rs lset))

is_nil-append : (xs ys : List RouteNode) → is_nil (xs ++ ys) ≡ (is_nil xs && is_nil ys)
is_nil-append [] ys = refl
is_nil-append (x ∷ xs) ys = refl

is_nil-match_children :
    (rs : Routes) (lset : LabelSet) → is_nil (match_children rs lset) ≡ not (any_takes rs lset)
unfolding match_children
is_nil-match_children no_routes lset = refl
is_nil-match_children (one_more r rs) lset = ground (
  arith,
  is_nil-match_route r lset,
  is_nil-match_children rs lset,
  is_nil-append (match_route r lset) (match_children rs lset),
)

In-or_self :
    (n m : RouteNode) (xs : List RouteNode)
    → In m (or_self n xs)
    → (is_nil xs ≡ true × (m ≡ n)) ⊎ In m xs
In-or_self n m [] (inl e) = inl (refl, e)
In-or_self n m [] (inr h) = elim h [ ]
In-or_self n m (x ∷ xs) h = inr h

In-or_self_right : (n m : RouteNode) (xs : List RouteNode) → In m xs → In m (or_self n xs)
In-or_self_right n m [] h = elim h [ ]
In-or_self_right n m (x ∷ xs) h = h

In-or_self_nil : (n : RouteNode) (xs : List RouteNode) → is_nil xs ≡ true → In n (or_self n xs)
In-or_self_nil n [] h = inl refl
In-or_self_nil n (x ∷ xs) h = absurd (ground (arith, h))

-- The test that ends the loop, in the terms of the route.
stops :
    (r : Route) (lset : LabelSet)
    → (not (is_nil (match_route r lset)) && not (node_of r).continues)
      ≡ (takes r lset && not (node_of r).continues)
stops r lset = ground (arith, is_nil-match_route r lset)

mutual
  unfolding match_route match_children

  sound :
      (r : Route) (lset : LabelSet) (m : RouteNode) → In m (match_route r lset) → Selected lset r m
  sound (route n rs) lset m h = elim (Bool-cases (matches_all n.matchers lset)) [
    | inr p ↦ elim (rw p at h) [ ]
    | inl p ↦ elim (In-or_self n m (match_children rs lset) (rw p at h)) [
      | inl (none_below, e) ↦
          rw e (itself n rs p (ground (arith, none_below, is_nil-match_children rs lset)))
      | inr found ↦ below n m rs p (sound_children rs lset m found)
    ]
  ]

  sound_children :
      (rs : Routes) (lset : LabelSet) (m : RouteNode)
      → In m (match_children rs lset)
      → SelectedIn lset rs m
  sound_children no_routes lset m h = elim h [ ]
  sound_children (one_more r rs) lset m h =
      elim (Bool-cases (takes r lset && not (node_of r).continues)) [
        | inl p ↦ first r rs m (sound r lset m (rw (stops r lset, p) at h))
        | inr p ↦
            elim (In-append m (match_route r lset) (match_children rs lset)
              (rw (stops r lset, p) at h)) [
                | inl here ↦ first r rs m (sound r lset m here)
                | inr there ↦ later r rs m p (sound_children rs lset m there)
              ]
      ]

mutual
  unfolding match_route match_children

  complete :
      (lset : LabelSet) {r : Route} {m : RouteNode} → Selected lset r m → In m (match_route r lset)
  complete lset (itself n rs p q) =
      rw p (
        In-or_self_nil n (match_children rs lset)
          (ground (arith, q, is_nil-match_children rs lset)))
  complete lset (below n m rs p s) =
      rw p (In-or_self_right n m (match_children rs lset) (complete_children lset s))

  complete_children :
      (lset : LabelSet) {rs : Routes} {m : RouteNode}
      → SelectedIn lset rs m
      → In m (match_children rs lset)
  complete_children lset (first r rs m s) =
      elim (Bool-cases (takes r lset && not (node_of r).continues)) [
        | inl p ↦ rw (stops r lset, p) (complete lset s)
        | inr p ↦
            rw (stops r lset, p)
              (In-left m (match_route r lset) (match_children rs lset) (complete lset s))
      ]
  complete_children lset (later r rs m p s) =
      rw (stops r lset, p)
        (In-right m (match_route r lset) (match_children rs lset) (complete_children lset s))

-- `Match` returns exactly the routes that the rules of selection allow: every route on the way
-- from the root matches, no earlier sibling of any of them matches without continuing, and none of
-- the children of the selected route matches.
pub match_route_lem :
    (r : Route) (lset : LabelSet) (m : RouteNode) → In m (match_route r lset) ↔ Selected lset r m
match_route_lem r lset m = (sound r lset m, complete lset)
