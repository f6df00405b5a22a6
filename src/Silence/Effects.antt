-- ===== src/Silence/Effects.antt =====
-- What `Set` and `Expire` of silence/silence.go leave in the state when they return no error.
pub mod Stored
use Prim.Native.String.{String}
use codestra_alertmanager.Prelude.{
  ◌≡◌, ◌≢◌, refl, sym, ◌∙◌, ap, Bool, true, false, Option, none, some, ◌==◌, ◌+◌, ◌&&◌, string_eq,
  arith, Option-cases, Bool-cases, inl, inr, if_elim, if◌then◌else◌,
}
use codestra_alertmanager.Prelude.Maps.{lookup}
use codestra_alertmanager.Clock.{Time, as_time, before}
use codestra_alertmanager.Silence.Data.{
  Silence, SilenceState, MeshSilence, expired, active, pending, get_state, state_beq,
  upgrade_comments,
}
use codestra_alertmanager.Silence.Validate.{validate_silence}
use codestra_alertmanager.Silence.State.{
  Bytes, Env, Err, State, Silences, SetResult, merge, after_merge, set_silence, index_silence,
  expire, expire_found, ended_at, to_mesh_silence, get_silence, marshal_mesh_silence, exceeds_count,
  exceeds_size, can_update,
}
use codestra_alertmanager.Silence.State.Merging.{
  newest, accepts, lookup-merge, MergeCase, unchanged, fresh, replaced, merge_case,
}
use codestra_alertmanager.Silence.Operations.{
  SetOutcome, update, create, created, store_new, expire_replaced, set_valid, set, with_start,
}
use codestra_alertmanager.Silence.Consistency.Collection.{IsKeyed}

after_merge_st :
    (env : Env) (s : Silences) (msil : MeshSilence) (b : Bytes) (now : Time)
    → (after_merge env s msil b (merge s.st msil now)).silences.st ≡ (merge s.st msil now).0
unfolding index_silence
after_merge_st env s msil b now = elim (merge_case s.st msil now) [
  | unchanged p ↦ rw p
  | fresh p n ↦ rw p
  | replaced p prev n ↦ rw p
]

-- A write that returns no error is the merge.
pub set_silence_st :
    (env : Env) (s : Silences) (msil : MeshSilence) (now : Time)
    → (set_silence env s msil now).err ≡ none
    → (set_silence env s msil now).silences.st ≡ (merge s.st msil now).0
set_silence_st env s msil now h = elim (Option-cases (marshal_mesh_silence env msil)) [
  | inl n ↦ absurd (unfold set_silence in ground arith)
  | inr (b, p) ↦ unfold set_silence in rw (p, set_silence) (after_merge_st env s msil b now)
]

-- A write, whether it fails or not, touches the ID of its silence alone.
pub set_silence_ne :
    (env : Env) (s : Silences) (msil : MeshSilence) (now : Time) (k : String)
    → (msil.silence.id == k) ≡ false
    → lookup k (set_silence env s msil now).silences.st ≡ lookup k s.st
unfolding set_silence
set_silence_ne env s msil now k ne = elim (Option-cases (marshal_mesh_silence env msil)) [
  | inl n ↦ rw (n, set_silence)
  | inr (b, p) ↦
      rw (p, set_silence)
        (ground (arith, after_merge_st env s msil b now, lookup-merge s.st msil now k))
]

expire_found_ne :
    (env : Env) (s : Silences) (sil : Silence) (state : SilenceState) (now : Time) (k : String)
    → (sil.id == k) ≡ false
    → lookup k (expire_found env s sil state now).0.st ≡ lookup k s.st
expire_found_ne env s sil expired now k ne = refl
expire_found_ne env s sil active now k ne =
    set_silence_ne env s (to_mesh_silence s (ended_at active sil now)) now k
      (unfold to_mesh_silence in ne)
expire_found_ne env s sil pending now k ne =
    set_silence_ne env s (to_mesh_silence s (ended_at pending sil now)) now k
      (unfold to_mesh_silence in ne)

expire_ne :
    (env : Env) (s : Silences) (id : String) (now : Time) (k : String)
    → IsKeyed s.st
    → (id == k) ≡ false
    → lookup k (expire env s id now).0.st ≡ lookup k s.st
unfolding expire
expire_ne env s id now k keyed ne = elim (Option-cases (lookup id s.st)) [
  | inl n ↦ unfold get_silence in rw (n, expire, get_silence)
  | inr (e, p) ↦
      unfold get_silence in
      rw (p, expire, get_silence)
        (expire_found_ne env s e.silence (get_state e.silence now) now k (rw (keyed id e p) ne))
]
