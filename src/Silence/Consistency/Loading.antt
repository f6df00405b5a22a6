-- ===== src/Silence/Consistency/Loading.antt =====
-- `loadSnapshot` of silence/silence.go: the state that it decodes and the indices that it builds.
use Prim.Native.String.{String}
use codestra_alertmanager.Prelude.{
  ℕ, ◌+◌, ◌≡◌, refl, ap, Bool, true, false, Option, none, some, List, [], ◌∷◌, ◌++◌, ◌||◌,
  string_eq, arith, if◌then◌else◌, Option-cases, inl, inr,
}
use codestra_alertmanager.Prelude.Maps.{lookup, insert, lookup-insert}
use codestra_alertmanager.Labels
use codestra_alertmanager.Silence.Data.{MeshSilence, Silence}
use codestra_alertmanager.Silence.Index.{
  SilenceVersion, VersionIndex, MatcherIndex, compile_sets, add_matchers, add_version,
}
use codestra_alertmanager.Silence.Index.Search.{IsSorted}
use codestra_alertmanager.Silence.State.{Bytes, Env, State, Silences, Err}
use codestra_alertmanager.Silence.Operations.{
  decode_state, upgrade_all, load_indices, load_snapshot,
}
use codestra_alertmanager.Silence.Consistency.{lists, is_some, IsUnique, AllTo, IsConsistent}
use codestra_alertmanager.Silence.Consistency.Step.{
  lists-append, IsUnique-append, IsSorted-append, AllTo-append,
}
use codestra_alertmanager.Silence.Query.Select.{IsCompiled}
use codestra_alertmanager.Silence.Consistency.Tidy.{
  IsTidy, Tidy-keyed, upgrade_all-IsTidy, decode_state-IsTidy,
}

abbrev compiles : Env → MeshSilence → Bool
compiles env e = is_some (compile_sets env.rules.compile e.silence.matcher_sets)

-- The matchers of a silence as they compile, or `before` where there is no silence.
abbrev matchers_or :
    Env
    → Option (List (List Labels.Matcher))
    → Option MeshSilence
    → Option (List (List Labels.Matcher))
matchers_or env before none = before
matchers_or env before (some e) = compile_sets env.rules.compile e.silence.matcher_sets

-- The matcher index holds, under every ID, what the matchers of the silence of that ID compile to,
-- and nothing under the other IDs.
abbrev pub IsIndexed : Env → Silences → Type 0
IsIndexed env s = (k : String) → lookup k s.mi ≡ matchers_or env none (lookup k s.st)

-- What the loop has built from the entries that it has met.
record Built (env : Env) (version : ℕ) (st : State) (mi mi' : MatcherIndex) (vi vi' : VersionIndex)
    : Type 0 where
  listed : (k : String) → lists vi' k ≡ (lists vi k || is_some (lookup k st))
  compiled : (k : String) → lookup k mi' ≡ matchers_or env (lookup k mi) (lookup k st)
  unique : IsUnique vi'
  sorted : IsSorted vi'
  bounded : AllTo version vi'

module _ (env : Env) (version : ℕ) where
  added :
      (sil : Silence) (mi : MatcherIndex) (sets : List (List Labels.Matcher))
      → compile_sets env.rules.compile sil.matcher_sets ≡ some sets
      → add_matchers env.rules.compile mi sil ≡ (insert sil.id sets mi, true)
  unfolding add_matchers
  added sil mi sets p = rw (p, add_matchers) refl

  load_indices-cons :
      (j : String) (e : MeshSilence) (st : State) (mi : MatcherIndex) (vi : VersionIndex)
      (sets : List (List Labels.Matcher))
      → compile_sets env.rules.compile e.silence.matcher_sets ≡ some sets
      → load_indices env version ((j, e) ∷ st) mi vi
        ≡ load_indices env version st
            (insert e.silence.id sets mi)
            (vi ++ record { version = version; id = e.silence.id } ∷ [])
  unfolding load_indices add_version
  load_indices-cons j e st mi vi sets p =
      let sv : SilenceVersion = record { version = version; id = e.silence.id } in
      ap
        (λ (r : MatcherIndex × Bool).
          load_indices env version st r.0 (if r.1 then vi ++ sv ∷ [] else vi))
        (added e.silence mi sets p)

  load_indices-Built :
      (st : State) (mi : MatcherIndex) (vi : VersionIndex)
      → IsTidy st
      → ((k : String) (e : MeshSilence) → lookup k st ≡ some e → compiles env e ≡ true)
      → ((k : String) → is_some (lookup k st) ≡ true → lists vi k ≡ false)
      → IsUnique vi
      → IsSorted vi
      → AllTo version vi
      → Built env version st mi
          (load_indices env version st mi vi).0
          vi
          (load_indices env version st mi vi).1
  unfolding load_indices lookup
  load_indices-Built [] mi vi tidy c new u s b = record {
    listed = λ k. ground arith;
    compiled = λ k. ground arith;
    unique = u;
    sorted = s;
    bounded = b;
  }
  load_indices-Built ((j, e) ∷ st) mi vi tidy c new u s b =
      elim (Option-cases (compile_sets env.rules.compile e.silence.matcher_sets)) [
        | inl n ↦ absurd (ground (arith, n, c j e, string_eq.beq_iff j j))
        | inr (sets, p) ↦
            let sv : SilenceVersion = record { version = version; id = e.silence.id } in
            let rest =
              load_indices-Built st (insert e.silence.id sets mi) (vi ++ sv ∷ []) tidy.2
                (λ k f q. c k f (ground (arith, q, tidy.0, string_eq.beq_iff j k)))
                (λ k q. ground (
                  arith,
                  q,
                  tidy.0,
                  tidy.1,
                  lists-append vi sv k,
                  new k,
                  string_eq.beq_iff j k,
                  string_eq.beq_iff e.silence.id k,
                ))
                (IsUnique-append vi sv (ground (arith, new j, tidy.1, string_eq.beq_iff j j)) u)
                (IsSorted-append vi sv b s) (AllTo-append version vi sv (omega arith) b) in
            rw (load_indices-cons j e st mi vi sets p) (record {
              listed = λ k. ground (
                arith,
                rest.listed k,
                lists-append vi sv k,
                tidy.1,
                string_eq.beq_iff j k,
                string_eq.beq_iff e.silence.id k,
              );
              compiled = λ k. ground (
                arith,
                rest.compiled k,
                lookup-insert e.silence.id k sets mi,
                tidy.1,
                string_eq.beq_iff j k,
                string_eq.beq_iff e.silence.id k,
              );
              unique = rest.unique;
              sorted = rest.sorted;
              bounded = rest.bounded;
            })
      ]

loaded :
    (env : Env) (s : Silences) (b : Bytes)
    → (decode_state env b).1 ≡ none
    → let st = upgrade_all (decode_state env b).0 in
      let (mi, vi) = load_indices env (s.version + 1) st [] [] in
      load_snapshot env s b
      ≡ (record s { st = st; mi = mi; vi = vi; version = s.version + 1 }, none)
unfolding load_snapshot
loaded env s b p = rw (p, load_snapshot) refl

load_snapshot-fails :
    (env : Env) (s : Silences) (b : Bytes) (e : Err)
    → (decode_state env b).1 ≡ some e
    → (load_snapshot env s b).1 ≡ some e
unfolding load_snapshot
load_snapshot-fails env s b e p = rw (p, load_snapshot) refl

-- A snapshot that is loaded without an error, and all of whose silences have matchers that
-- compile, gives a store whose state and version index agree, and whose matcher index holds under
-- the ID of every silence what its matchers compile to, and nothing under other IDs.
pub load_snapshot-IsConsistent :
    (env : Env) (s : Silences) (b : Bytes)
    → (load_snapshot env s b).1 ≡ none
    → ((k : String) (e : MeshSilence)
        → lookup k (load_snapshot env s b).0.st ≡ some e
        → is_some (compile_sets env.rules.compile e.silence.matcher_sets) ≡ true)
    → IsConsistent (load_snapshot env s b).0
      × IsCompiled (load_snapshot env s b).0
      × IsIndexed env (load_snapshot env s b).0
unfolding lookup
load_snapshot-IsConsistent env s b ok c = elim (Option-cases (decode_state env b).1) [
  | inr (e, p) ↦ absurd (ground (arith, ok, load_snapshot-fails env s b e p))
  | inl p ↦
      let st = upgrade_all (decode_state env b).0 in
      let tidy = upgrade_all-IsTidy (decode_state env b).0 (decode_state-IsTidy env b) in
      let built =
        load_indices-Built env (s.version + 1) st [] [] tidy
          (λ k e q. c k e (rw (loaded env s b p) q)) (λ k q. refl) tt tt tt in
      rw (loaded env s b p) (
        record {
          keyed = λ k e q. Tidy-keyed st k e tidy q;
          listed = built.listed;
          unique = built.unique;
          sorted = built.sorted;
          bounded = built.bounded;
        },
        λ k q. elim (Option-cases (lookup k st)) [
          | inl n ↦ absurd (ground (arith, q, n))
          | inr (e, p') ↦ ground (arith, built.compiled k, p', c k e (rw (loaded env s b p) p'))
        ],
        built.compiled,
      )
]
