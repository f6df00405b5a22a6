-- ===== src/Dispatch/Route/Config.antt =====
-- `NewRoute` of dispatch/route.go: the routing tree of a configuration.
--
-- `none` is the panic on a matcher that does not compile. The labels of a route are merged into a
-- fresh copy of its parent's. `sort.Sort` is an insertion sort by the `Less` of pkg/labels: entries
-- that it does not tell apart agree in name, value and type. The texts of `match_re` are those of
-- the configured regular expressions.
use Prim.Native.Nat.{lt}
use Prim.Native.String.{String, compare}
use codestra_alertmanager.Prelude.{
  ℕ, ◌+◌, ◌*◌, Bool, true, false, Option, none, some, List, [], ◌∷◌, ◌++◌, if◌then◌else◌, ◌==◌,
  string_eq, ltb,
}
use codestra_alertmanager.Prelude.Maps.{Map, insert}
use codestra_alertmanager.Clock.{Duration, second}
use codestra_alertmanager.Labels.{
  LabelSet, MatchType, equal, not_equal, regexp, not_regexp, Matcher, Compile, new_matcher,
}
use codestra_alertmanager.Silence.Data.{is_nil}
use codestra_alertmanager.Dispatch.Route.{RouteOpts, Route, Routes, route, no_routes, one_more}

-- The fields of `config.Route` without its children.
pub record RouteConfig : Type 0 where
  pub receiver : String
  pub group_by : Option (List String)
  pub group_by_all : Bool
  pub match : Map String String
  pub match_re : Map String String
  pub matchers : List Matcher
  pub mute_time_intervals : List String
  pub active_time_intervals : List String
  pub continues : Bool
  pub group_wait : Option Duration
  pub group_interval : Option Duration
  pub repeat_interval : Option Duration
  pub labels : LabelSet

mutual
  pub data ConfigRoute : Type 0 where
    config : RouteConfig → ConfigRoutes → ConfigRoute

  pub data ConfigRoutes : Type 0 where
    no_configs : ConfigRoutes
    config_and : ConfigRoute → ConfigRoutes → ConfigRoutes

abbrev pub default_route_opts : RouteOpts
default_route_opts = record {
  receiver = "";
  group_by = [];
  group_by_all = false;
  group_wait = 30 * second;
  group_interval = 300 * second;
  repeat_interval = 14400 * second;
  mute_time_intervals = [];
  active_time_intervals = [];
  labels = [];
}

-- `maps.Copy`
abbrev pub copy_labels : LabelSet → LabelSet → LabelSet
copy_labels into [] = into
copy_labels into ((n, v) ∷ ls) = copy_labels (insert n v into) ls

abbrev pub or_else {ℓ} : {A : Type ℓ} → Option A → A → A
or_else none d = d
or_else (some a) d = a

-- The options of a route, from those of its parent.
unfoldable pub route_opts : RouteConfig → RouteOpts → RouteOpts
route_opts c opts = record {
  receiver = if c.receiver == "" then opts.receiver else c.receiver;
  group_by = or_else c.group_by opts.group_by;
  group_by_all = elim c.group_by [
    | some ls ↦ false
    | none ↦ if c.group_by_all then c.group_by_all else opts.group_by_all
  ];
  group_wait = or_else c.group_wait opts.group_wait;
  group_interval = or_else c.group_interval opts.group_interval;
  repeat_interval = or_else c.repeat_interval opts.repeat_interval;
  mute_time_intervals = c.mute_time_intervals;
  active_time_intervals = c.active_time_intervals;
  labels =
      if is_nil c.labels then opts.labels else copy_labels (copy_labels [] opts.labels) c.labels;
}

abbrev pub string_ltb : String → String → Bool
string_ltb s t = elim (compare s t) [ lt ↦ true | _ ↦ false ]

abbrev pub type_number : MatchType → ℕ
type_number equal = 0
type_number not_equal = 1
type_number regexp = 2
type_number not_regexp = 3

-- `Matchers.Less`
unfoldable pub matcher_less : Matcher → Matcher → Bool
matcher_less a b =
    if string_ltb b.name a.name
    then false
    else if string_ltb a.name b.name
    then true
    else if string_ltb b.value a.value
    then false
    else if string_ltb a.value b.value
    then true
    else ltb (type_number a.type) (type_number b.type)

abbrev pub insert_sorted : Matcher → List Matcher → List Matcher
insert_sorted m [] = m ∷ []
insert_sorted m (x ∷ xs) = if matcher_less m x then m ∷ x ∷ xs else x ∷ insert_sorted m xs

abbrev pub sort_matchers : List Matcher → List Matcher
sort_matchers [] = []
sort_matchers (m ∷ ms) = insert_sorted m (sort_matchers ms)

-- One of the two loops over the deprecated fields.
unfoldable pub old_matchers : Compile → MatchType → Map String String → Option (List Matcher)
old_matchers compile t [] = some []
old_matchers compile t ((n, v) ∷ rest) =
    let later = old_matchers compile t rest in
    elim (new_matcher compile t n v) [
      | none ↦ none
      | some m ↦ elim later [ none ↦ none | some ms ↦ some (m ∷ ms) ]
    ]

unfoldable pub route_matchers : Compile → RouteConfig → Option (List Matcher)
route_matchers compile c = elim (old_matchers compile equal c.match) [
  | none ↦ none
  | some ms ↦ elim (old_matchers compile regexp c.match_re) [
    | none ↦ none
    | some rs ↦ some (sort_matchers ((ms ++ rs) ++ c.matchers))
  ]
]

-- `newRoute` and `newRoutes`: the tree, and the counter after it. Children are numbered first.
unfoldable mutual
  pub new_route : Compile → ConfigRoute → RouteOpts → ℕ → Option (Route × ℕ)
  new_route compile (config c cs) parent counter =
      let opts = route_opts c parent in
      let children = new_routes compile cs opts counter in
      elim (route_matchers compile c) [
        | none ↦ none
        | some ms ↦ elim children [
          | none ↦ none
          | some (rs, n) ↦ some (
            route (record { opts = opts; matchers = ms; continues = c.continues; idx = n }) rs,
            n + 1,
          )
        ]
      ]

  pub new_routes : Compile → ConfigRoutes → RouteOpts → ℕ → Option (Routes × ℕ)
  new_routes compile no_configs parent counter = some (no_routes, counter)
  new_routes compile (config_and c cs) parent counter = elim (new_route compile c parent counter) [
    | none ↦ none
    | some (r, n) ↦ elim (new_routes compile cs parent n) [
      | none ↦ none
      | some (rs, m) ↦ some (one_more r rs, m)
    ]
  ]

-- `NewRoute` of a configuration's root.
unfoldable pub new_root : Compile → ConfigRoute → Option (Route × ℕ)
new_root compile c = new_route compile c default_route_opts 0
