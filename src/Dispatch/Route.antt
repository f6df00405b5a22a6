-- ===== src/Dispatch/Route.antt =====
-- `Route` of dispatch/route.go: the tree, `Match` and `Walk`.
--
-- A route's pointer to its parent is not part of the tree; what follows it (`Key` and `ID`) is not
-- modelled. The set `GroupBy` is the list that it is built from.
pub mod Config
pub mod Selected
pub mod Numbering
use Prim.Native.String.{String}
use codestra_alertmanager.Prelude.{
  ℕ, Bool, true, false, not, List, [], ◌∷◌, ◌++◌, ◌&&◌, if◌then◌else◌,
}
use codestra_alertmanager.Clock.{Duration}
use codestra_alertmanager.Labels.{LabelSet, Matcher, matches_all}
use codestra_alertmanager.Silence.Data.{is_nil}

pub record RouteOpts : Type 0 where
  pub receiver : String
  pub group_by : List String
  pub group_by_all : Bool
  pub group_wait : Duration
  pub group_interval : Duration
  pub repeat_interval : Duration
  pub mute_time_intervals : List String
  pub active_time_intervals : List String
  pub labels : LabelSet

-- What a route holds beside its children.
pub record RouteNode : Type 0 where
  pub opts : RouteOpts
  pub matchers : List Matcher
  pub continues : Bool
  pub idx : ℕ

mutual
  pub data Route : Type 0 where
    route : RouteNode → Routes → Route

  pub data Routes : Type 0 where
    no_routes : Routes
    one_more : Route → Routes → Routes

abbrev pub node_of : Route → RouteNode
node_of (route n rs) = n

-- The node itself, where no child matched.
abbrev pub or_self : RouteNode → List RouteNode → List RouteNode
or_self n [] = n ∷ []
or_self n (m ∷ ms) = m ∷ ms

-- `Match`; `match_children` is its loop, which a match ends unless the child continues.
unfoldable mutual
  pub match_route : Route → LabelSet → List RouteNode
  match_route (route n rs) lset =
      let found = or_self n (match_children rs lset) in
      if matches_all n.matchers lset then found else []

  pub match_children : Routes → LabelSet → List RouteNode
  match_children no_routes lset = []
  match_children (one_more r rs) lset =
      let matches = match_route r lset in
      let rest = match_children rs lset in
      if not (is_nil matches) && not (node_of r).continues then matches else matches ++ rest

-- `Walk`: the nodes in the order in which they are visited.
unfoldable mutual
  pub walk : Route → List RouteNode
  walk (route n rs) = n ∷ walk_children rs

  pub walk_children : Routes → List RouteNode
  walk_children no_routes = []
  walk_children (one_more r rs) = walk r ++ walk_children rs
