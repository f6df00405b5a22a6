-- ===== src/Examples/Muting.antt =====
-- `Mutes` of silence/silence.go and its queries at a store with one silence.
use Prim.{tt}
use Prim.Native.String.{String}
use codestra_alertmanager.Prelude.{◌≡◌, refl, not, some, [], ◌∷◌, ◌&&◌, contains, string_eq, arith}
use codestra_alertmanager.Prelude.Maps.{lookup}
use codestra_alertmanager.Labels
use codestra_alertmanager.Labels.{LabelSet, matches_any, matches_all, matches, label}
use codestra_alertmanager.Silence.Data.{active, is_nil, state_beq}
use codestra_alertmanager.Silence.Index.Search.{newer}
use codestra_alertmanager.Silence.State.{Silences}
use codestra_alertmanager.Silence.Consistency.{IsConsistent}
use codestra_alertmanager.Silence.Query.{ok, q_since, q_state, q_matches, query}
use codestra_alertmanager.Silence.Query.Select.{
  IsCompiled, state_of, matching, select_versions, query_since,
}
use codestra_alertmanager.Silence.Silencer.{Verdict, mutes, cache_get, live_states}
use codestra_alertmanager.Silence.Silencer.Answer.{IsCurrent, mutes_answer, mutes-IsCurrent}
use codestra_alertmanager.Examples.Silences.{no_silences, draft}

abbrev job_is_api : Labels.Matcher
job_is_api = record {
  type = Labels.MatchType.equal;
  name = "job";
  value = "api";
  re = Labels.no_regexp;
}

-- One silence, with its matchers, that was added in the store's first version.
abbrev store : Silences
store = record no_silences {
  st = ("a", record { silence = record draft { id = "a" }; expires_at = some 1500 }) ∷ [];
  version = 1;
  mi = ("a", (job_is_api ∷ []) ∷ []) ∷ [];
  vi = record { version = 1; id = "a" } ∷ [];
}

abbrev api : LabelSet
api = ("job", "api") ∷ []

store-IsConsistent : IsConsistent store
unfolding lookup
store-IsConsistent = record {
  keyed = λ k e p. ground (arith, p, string_eq.beq_iff "a" k);
  listed = λ k. ground (arith, string_eq.beq_iff "a" k);
  unique = (refl, tt);
  sorted = (tt, tt);
  bounded = (ground arith, tt);
}

store-IsCompiled : IsCompiled store
unfolding lookup
store-IsCompiled = λ k p. ground (arith, p, string_eq.beq_iff "a" k)

empty-IsCurrent : IsCurrent store api 150 (cache_get 7 [])
unfolding lookup cache_get
empty-IsCurrent = record {
  seen = ground arith;
  covers = λ k h i j. ground (arith, string_eq.beq_iff "a" k);
  sound = λ k h i. ground (arith, h);
}

abbrev api_verdict : Verdict
api_verdict = mutes 1 store 151 store 152 153 7 api []

mutes_answer_example :
    ((k : String)
      → contains api_verdict.marked k
        ≡ (state_beq (state_of store.st 153 k) active && matching store api k))
    × (api_verdict.muted ≡ not (is_nil api_verdict.marked))
mutes_answer_example =
    mutes_answer store api 150 151 152 153 store-IsConsistent store-IsCompiled (ground arith)
      (ground arith) (ground arith) (ground arith) 7 [] empty-IsCurrent

mutes-IsCurrent_example : IsCurrent store api 153 (cache_get 7 api_verdict.cache)
mutes-IsCurrent_example =
    mutes-IsCurrent store api 150 151 152 153 store-IsConsistent store-IsCompiled (ground arith)
      (ground arith) (ground arith) (ground arith) 7 [] empty-IsCurrent

query_since_example :
    query store 150 (q_since 0 ∷ q_state live_states ∷ q_matches api ∷ [])
    ≡ (ok (select_versions store 150 live_states api (newer 0 store.vi)), 1)
query_since_example = query_since store 150 0 live_states api store-IsConsistent store-IsCompiled
