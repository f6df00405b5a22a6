-- ===== src/Examples/Routing.antt =====
-- The routing tree of dispatch/route.go at a concrete configuration.
use Prim.Native.String.{String}
use codestra_alertmanager.Prelude.{
  ℕ, ◌+◌, ◌≡◌, refl, Bool, true, false, none, some, [], ◌∷◌, length, ◌↔◌, string_eq, ◌==◌,
}
use codestra_alertmanager.Prelude.Maps.{lookup}
use codestra_alertmanager.Labels.{
  LabelSet, Compile, equal, matches_all, matches, label, new_matcher,
}
use codestra_alertmanager.Dispatch.Route.{
  Route, RouteNode, route, no_routes, one_more, match_route, match_children, walk,
}
use codestra_alertmanager.Dispatch.Route.Config.{
  RouteConfig, ConfigRoute, config, no_configs, config_and, new_route, new_routes,
  default_route_opts, route_opts, matcher_less, old_matchers, route_matchers,
}
use codestra_alertmanager.Dispatch.Route.Selected.{match_route_lem, Selected}
use codestra_alertmanager.Prelude.Membership.{In}
use codestra_alertmanager.Dispatch.Route.Numbering.{new_route-walk, indices, numbers_from}

abbrev plain : RouteConfig
plain = record {
  receiver = "";
  group_by = none;
  group_by_all = false;
  match = [];
  match_re = [];
  matchers = [];
  mute_time_intervals = [];
  active_time_intervals = [];
  continues = false;
  group_wait = none;
  group_interval = none;
  repeat_interval = none;
  labels = [];
}

-- Pages for the database go on to the next route.
abbrev tree : ConfigRoute
tree =
    config (record plain { receiver = "default" })
      (config_and
        (config
          (record plain { receiver = "pager"; match = ("severity", "page") ∷ []; continues = true })
          (config_and (config (record plain { match = ("team", "db") ∷ [] }) no_configs)
            no_configs))
        (config_and (config (record plain { receiver = "chat" }) no_configs) no_configs))

abbrev compile : Compile
compile pattern = some (λ s. s == pattern)

abbrev node : String → String → String → Bool → ℕ → RouteNode
node receiver n v continues idx = record {
  opts = record default_route_opts { receiver = receiver };
  matchers = record { type = equal; name = n; value = v; re = λ s. false } ∷ [];
  continues = continues;
  idx = idx;
}

abbrev built : Route
built =
    route (record (node "default" "" "" false 3) { matchers = [] })
      (one_more
        (route (node "pager" "severity" "page" true 1)
          (one_more (route (node "pager" "team" "db" false 0) no_routes) no_routes))
        (one_more (route (record (node "chat" "" "" false 2) { matchers = [] }) no_routes)
          no_routes))

tree_is_made : new_route compile tree default_route_opts 0 ≡ some (built, 4)
unfolding new_route new_routes route_opts route_matchers old_matchers new_matcher matcher_less
tree_is_made = refl

new_route-walk_example :
    (indices built ≡ numbers_from 0 (length (walk built))) × (4 ≡ 0 + length (walk built))
new_route-walk_example = new_route-walk compile tree default_route_opts 0 built 4 tree_is_made

abbrev page : LabelSet
page = ("severity", "page") ∷ ("team", "db") ∷ []

page_routed :
    match_route built page
    ≡ node "pager" "team" "db" false 0 ∷ record (node "chat" "" "" false 2) { matchers = [] } ∷ []
unfolding match_route match_children matches_all matches label lookup
page_routed = refl

match_route_example :
    In (node "pager" "team" "db" false 0) (match_route built page)
    ↔ Selected page built (node "pager" "team" "db" false 0)
match_route_example = match_route_lem built page (node "pager" "team" "db" false 0)
