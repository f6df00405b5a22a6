-- ===== src/Silence/Reach.antt =====
-- The life of a store of silence/silence.go as a relation: the operations that change it, one after
-- the other.
use Prim.Native.String.{String}
use codestra_alertmanager.Prelude.{◌≢◌, Option, List}
use codestra_alertmanager.Clock.{Time}
use codestra_alertmanager.Silence.Data.{Silence}
use codestra_alertmanager.Silence.State.{Bytes, Env, Silences, expire}
use codestra_alertmanager.Silence.Operations.{set, gc, merge_peer}
use codestra_alertmanager.Silence.Consistency.{IsConsistent}
use codestra_alertmanager.Silence.Consistency.Writes.{
  set-IsConsistent, expire-IsConsistent, merge_peer-IsConsistent,
}
use codestra_alertmanager.Silence.Consistency.Removal.{gc-IsConsistent}
use codestra_alertmanager.Silence.Query.{err, nil_dereference, QueryParam, query}
use codestra_alertmanager.Silence.Query.Safety.{query-IsSafe}

-- A `Set`, an `Expire`, a `Merge` or a `GC`, with any arguments and clock readings.
pub data Step (env : Env) : Silences → Silences → Type 0 where
  by_set :
      (s : Silences) (sil : Silence) (fresh : Option String) (now later latest : Time)
      → Step env s (set env s sil fresh now later latest).silences
  by_expire : (s : Silences) (id : String) (now : Time) → Step env s (expire env s id now).0
  by_merge : (s : Silences) (b : Bytes) (now : Time) → Step env s (merge_peer env s b now).0
  by_gc : (s : Silences) (now : Time) → Step env s (gc s now).0

pub data Reach (env : Env) (s : Silences) : Silences → Type 0 where
  start : Reach env s s
  after : {t u : Silences} → Reach env s t → Step env t u → Reach env s u

Step-IsConsistent : {env : Env} {s t : Silences} → Step env s t → IsConsistent s → IsConsistent t
Step-IsConsistent {env = env} (by_set s sil fresh now later latest) c =
    set-IsConsistent env s sil fresh now later latest c
Step-IsConsistent {env = env} (by_expire s id now) c = expire-IsConsistent env s id now c
Step-IsConsistent {env = env} (by_merge s b now) c = merge_peer-IsConsistent env s b now c
Step-IsConsistent (by_gc s now) c = (gc-IsConsistent s now c).0

Reach-IsConsistent : {env : Env} {s t : Silences} → Reach env s t → IsConsistent s → IsConsistent t
Reach-IsConsistent start c = c
Reach-IsConsistent (after r step) c = Step-IsConsistent step (Reach-IsConsistent r c)

-- After any sequence of `Set`, `Expire`, `Merge` and `GC` from a store whose state and version
-- index agree, no query, with any parameters, dereferences a silence that the version index lists
-- and the state lacks.
pub query-Reach :
    (env : Env) (s t : Silences) (now : Time) (params : List QueryParam)
    → IsConsistent s
    → Reach env s t
    → (query t now params).0 ≢ err nil_dereference
query-Reach env s t now params c r = query-IsSafe t now params (Reach-IsConsistent r c)
