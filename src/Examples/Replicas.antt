-- ===== src/Examples/Replicas.antt =====
-- The replication, the indices, the history and the snapshot of silence/silence.go at concrete silences.
use Prim.{tt}
use Prim.Native.String.{String}
use mathlib.Core.List.{Permᴰ}
use codestra_alertmanager.Prelude.{
  List, Option, Bool-cases, inl, inr, subst, ◌≢◌, ◌≡◌, refl, true, not, none, some, [], ◌∷◌, ◌==◌,
  drop, string_eq, arith,
}
use codestra_alertmanager.Prelude.Maps.{lookup, insert}
use codestra_alertmanager.Clock.{Time}
use codestra_alertmanager.Labels.{new_matcher}
use codestra_alertmanager.Silence.Data.{
  MatcherSet, postprocess, MeshSilence, is_nil, upgrade_comments,
}
use codestra_alertmanager.Silence.Index.{
  VersionIndex, find_version_greater_than, search_between, compile_matcher, compile_matchers,
  compile_sets, match_type,
}
use codestra_alertmanager.Silence.Index.Search.{newer, find_version-newer}
use codestra_alertmanager.Silence.State.{Silences, expire}
use codestra_alertmanager.Silence.State.Convergence.{deliver, deliver_reorder, Coherent}
use codestra_alertmanager.Silence.Operations.{load_snapshot, gc, decode_state}
use codestra_alertmanager.Silence.Consistency.{is_some, IsConsistent}
use codestra_alertmanager.Silence.Consistency.Loading.{IsIndexed, load_snapshot-IsConsistent}
use codestra_alertmanager.Silence.Query.{query, q_since, err, nil_dereference}
use codestra_alertmanager.Silence.Query.Select.{IsCompiled}
use codestra_alertmanager.Silence.Reach.{
  Reach, start, after, by_set, by_expire, by_merge, by_gc, query-Reach,
}
use codestra_alertmanager.Examples.Silences.{
  draft, env, no_silences, one, two, no_silences-IsConsistent,
}

-- Two peers' messages on one silence, and one on another.
abbrev message : String → Time → MeshSilence
message i t = record {
  silence = record draft { id = i; updated_at = some t };
  expires_at = some 1500;
}

abbrev IsMessage : MeshSilence → Type 0
IsMessage e = (p : String × Time) × (e ≡ message p.0 p.1)

message-Coherent : (e f : MeshSilence) → IsMessage e → IsMessage f → Coherent e f
message-Coherent e f ((i, t), p) ((j, u), q) = rw (p, q) (λ a b. rw (a, b))

deliver_reorder_example :
    lookup "a" (deliver one.st (message "a" 120 ∷ message "a" 130 ∷ message "b" 110 ∷ []) 140)
    ≡ lookup "a" (deliver one.st (message "a" 130 ∷ message "a" 120 ∷ message "b" 110 ∷ []) 140)
deliver_reorder_example =
    deliver_reorder IsMessage message-Coherent 140 one.st (Permᴰ.swap refl refl)
      ((("a", 120), refl), ((("a", 130), refl), ((("b", 110), refl), tt))) "a"

abbrev versions : VersionIndex
versions =
    record { version = 1; id = "a" }
    ∷ record { version = 2; id = "b" }
    ∷ record { version = 2; id = "c" }
    ∷ []

find_version-newer_example :
    (drop (find_version_greater_than 1 versions).0 versions ≡ newer 1 versions)
    × ((find_version_greater_than 1 versions).1 ≡ not (is_nil (newer 1 versions)))
find_version-newer_example =
    find_version-newer 1 versions
      ((ground arith, (ground arith, tt)), ((ground arith, tt), (tt, tt)))

two_found : find_version_greater_than 1 versions ≡ (1, true)
unfolding find_version_greater_than search_between
two_found = refl

-- Two silences are stored, one is ended, and the store is cleaned.
abbrev life : Reach env no_silences (gc (expire env two "a" 250).0 1240).0
life =
    after
      (after
        (after (after start (by_set no_silences draft (some "a") 100 101 102))
          (by_merge one (1 ∷ []) 200))
        (by_expire two "a" 250))
      (by_gc (expire env two "a" 250).0 1240)

query-Reach_example :
    (query (gc (expire env two "a" 250).0 1240).0 1241 (q_since 0 ∷ [])).0 ≢ err nil_dereference
query-Reach_example =
    query-Reach env no_silences (gc (expire env two "a" 250).0 1240).0 1241 (q_since 0 ∷ [])
      no_silences-IsConsistent life

-- The snapshot that this encoding reads back has one silence.
abbrev restored : Silences
restored = (load_snapshot env no_silences (1 ∷ [])).0

load_snapshot-no_error : (load_snapshot env no_silences (1 ∷ [])).1 ≡ none
unfolding load_snapshot decode_state
load_snapshot-no_error = refl

abbrev matcher_sets_of : Option MeshSilence → List MatcherSet
matcher_sets_of none = []
matcher_sets_of (some e) = e.silence.matcher_sets

restored-compiles :
    (k : String) (e : MeshSilence)
    → lookup k restored.st ≡ some e
    → is_some (compile_sets env.rules.compile e.silence.matcher_sets) ≡ true
unfolding load_snapshot decode_state postprocess insert lookup upgrade_comments compile_sets
    compile_matchers compile_matcher match_type new_matcher
restored-compiles k e p = elim (Bool-cases ("b" == k)) [
  | inl q ↦
      subst (λ x. is_some (compile_sets env.rules.compile (matcher_sets_of x)) ≡ true) (rw q at p)
        refl
  | inr q ↦ absurd (ground (arith, p, q))
]

load_snapshot-IsConsistent_example :
    IsConsistent restored × IsCompiled restored × IsIndexed env restored
load_snapshot-IsConsistent_example =
    load_snapshot-IsConsistent env no_silences (1 ∷ []) load_snapshot-no_error restored-compiles
