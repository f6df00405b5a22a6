-- ===== src/Silence/Consistency/Writes.antt =====
-- `Set`, `Expire` and `Merge` of silence/silence.go and the agreement of the state and its version
-- index.
use Prim.Native.String.{String}
use codestra_alertmanager.Prelude.{
  Option, none, some, [], ◌∷◌, not, ◌&&◌, ◌==◌, string_eq, Option-cases, inl, inr, if_elim,
}
use codestra_alertmanager.Clock.{Time}
use codestra_alertmanager.Silence.Data.{
  Silence, SilenceState, MeshSilence, expired, active, pending, get_state, upgrade_comments,
  state_beq,
}
use codestra_alertmanager.Silence.Validate.{validate_silence}
use codestra_alertmanager.Silence.State.{
  Bytes, Env, Err, State, Silences, merge, after_merge, set_silence, index_silence, expire,
  expire_found, ended_at, to_mesh_silence, get_silence, marshal_mesh_silence, exceeds_count,
  exceeds_size, can_update,
}
use codestra_alertmanager.Silence.State.Merging.{unchanged, fresh, replaced, merge_case, id-upgrade}
use codestra_alertmanager.Silence.Operations.{
  SetOutcome, update, create, created, store_new, expire_replaced, set_valid, set, with_start,
  merge_entry, merge_entries, merge_peer, decode_state, oversized_message,
}
use codestra_alertmanager.Silence.Consistency.{IsConsistent}
use codestra_alertmanager.Silence.Consistency.Step.{
  replaced-Indexed, fresh-Indexed, absorb-IsConsistent,
}

pub after_merge-IsConsistent :
    (env : Env) (s : Silences) (msil : MeshSilence) (b : Bytes) (now : Time)
    → IsConsistent s
    → IsConsistent (after_merge env s msil b (merge s.st msil now)).silences
unfolding index_silence
after_merge-IsConsistent env s msil b now h = elim (merge_case s.st msil now) [
  | unchanged p ↦ rw p h
  | fresh p n ↦ rw p (
      fresh-Indexed s.st s.version s.vi (upgrade_comments msil) msil.silence.id (id-upgrade msil) n
        h)
  | replaced p prev n ↦ rw p (
      replaced-Indexed s.st s.version s.vi (upgrade_comments msil) prev msil.silence.id
        (id-upgrade msil) n h)
]

pub set_silence-IsConsistent :
    (env : Env) (s : Silences) (msil : MeshSilence) (now : Time)
    → IsConsistent s
    → IsConsistent (set_silence env s msil now).silences
unfolding set_silence
set_silence-IsConsistent env s msil now h = elim (Option-cases (marshal_mesh_silence env msil)) [
  | inl n ↦ rw (n, set_silence) h
  | inr (b, p) ↦ rw (p, set_silence) (after_merge-IsConsistent env s msil b now h)
]

expire_found-IsConsistent :
    (env : Env) (s : Silences) (sil : Silence) (state : SilenceState) (now : Time)
    → IsConsistent s
    → IsConsistent (expire_found env s sil state now).0
expire_found-IsConsistent env s sil expired now h = h
expire_found-IsConsistent env s sil active now h =
    set_silence-IsConsistent env s (to_mesh_silence s (ended_at active sil now)) now h
expire_found-IsConsistent env s sil pending now h =
    set_silence-IsConsistent env s (to_mesh_silence s (ended_at pending sil now)) now h

-- `Expire` keeps the state and its version index in agreement.
pub expire-IsConsistent :
    (env : Env) (s : Silences) (id : String) (now : Time)
    → IsConsistent s
    → IsConsistent (expire env s id now).0
unfolding expire
expire-IsConsistent env s id now h = elim (Option-cases (get_silence s id)) [
  | inl n ↦ rw (n, expire) h
  | inr (sil, p) ↦ rw (p, expire) (expire_found-IsConsistent env s sil (get_state sil now) now h)
]

update-IsConsistent :
    (env : Env) (s : Silences) (sil : Silence) (now : Time)
    → IsConsistent s
    → IsConsistent (update env s sil now).silences
update-IsConsistent env s sil now h =
    let sil' = record sil { updated_at = some now } in
    if_elim (λ (o : SetOutcome). IsConsistent o.silences)
      (exceeds_size env s (to_mesh_silence s sil')) _ _ (λ _. h)
      (λ _. set_silence-IsConsistent env s (to_mesh_silence s sil') now h)

expire_replaced-IsConsistent :
    (env : Env) (s : Silences) (prev : Option Silence) (later latest : Time)
    → IsConsistent s
    → IsConsistent (expire_replaced env s prev later latest).0
expire_replaced-IsConsistent env s none later latest h = h
expire_replaced-IsConsistent env s (some prev) later latest h =
    if_elim (λ (o : Silences × Option Err). IsConsistent o.0)
      (state_beq (get_state prev later) expired) _ _ (λ _. h)
      (λ _. expire-IsConsistent env s prev.id latest h)

store_new-IsConsistent :
    (env : Env) (sil : Silence) (msil : MeshSilence) (now : Time) (r : Silences × Option Err)
    → IsConsistent r.0
    → IsConsistent (store_new env sil msil now r).silences
store_new-IsConsistent env sil msil now (s, some e) h = h
store_new-IsConsistent env sil msil now (s, none) h = set_silence-IsConsistent env s msil now h

create-IsConsistent :
    (env : Env) (s : Silences) (sil : Silence) (prev : Option Silence) (fresh' : Option String)
    (now later latest : Time)
    → IsConsistent s
    → IsConsistent (create env s sil prev fresh' now later latest).silences
create-IsConsistent env s sil prev none now later latest h =
    if_elim (λ (o : SetOutcome). IsConsistent o.silences) (exceeds_count s) _ _ (λ _. h) (λ _. h)
create-IsConsistent env s sil prev (some uid) now later latest h =
    let sil' = created sil uid now in
    if_elim (λ (o : SetOutcome). IsConsistent o.silences) (exceeds_count s) _ _ (λ _. h)
      λ _.
        if_elim (λ (o : SetOutcome). IsConsistent o.silences)
          (exceeds_size env s (to_mesh_silence s sil')) _ _ (λ _. h)
          λ _.
            store_new-IsConsistent env sil' (to_mesh_silence s sil') now
              (expire_replaced env s prev later latest)
              (expire_replaced-IsConsistent env s prev later latest h)

set_valid-IsConsistent :
    (env : Env) (s : Silences) (sil : Silence) (prev : Option Silence) (fresh' : Option String)
    (now later latest : Time)
    → IsConsistent s
    → IsConsistent (set_valid env s sil prev fresh' now later latest).silences
set_valid-IsConsistent env s sil none fresh' now later latest h =
    if_elim (λ (o : SetOutcome). IsConsistent o.silences) (sil.id == "") _ _
      (λ _. create-IsConsistent env s sil none fresh' now later latest h) (λ _. h)
set_valid-IsConsistent env s sil (some prev) fresh' now later latest h =
    if_elim (λ (o : SetOutcome). IsConsistent o.silences) (can_update prev sil now) _ _
      (λ _. update-IsConsistent env s sil now h)
      (λ _. create-IsConsistent env s sil (some prev) fresh' now later latest h)

-- `Set` keeps the state and its version index in agreement, whether it succeeds or fails.
pub set-IsConsistent :
    (env : Env) (s : Silences) (sil : Silence) (fresh' : Option String) (now later latest : Time)
    → IsConsistent s
    → IsConsistent (set env s sil fresh' now later latest).silences
unfolding set
set-IsConsistent env s sil fresh' now later latest h =
    let (checked, invalid) = validate_silence env.rules (with_start sil now) in
    elim (Option-cases invalid) [
      | inr (e, p) ↦ rw (p, set) h
      | inl p ↦
          rw (p, set)
            (set_valid-IsConsistent env s checked (get_silence s checked.id) fresh' now later latest
              h)
    ]

merge_entry-IsConsistent :
    (env : Env) (b : Bytes) (e : MeshSilence) (now : Time) (s : Silences)
    → IsConsistent s
    → IsConsistent (merge_entry env b e now s)
merge_entry-IsConsistent env b e now s h =
    let (st, merged, added) = merge s.st e now in
    unfold merge_entry in
    if_elim IsConsistent (merged && not (oversized_message b)) _ _
      (λ _. absorb-IsConsistent env s e now h) (λ _. absorb-IsConsistent env s e now h)

merge_entries-IsConsistent :
    (env : Env) (b : Bytes) (st : State) (now : Time) (s : Silences)
    → IsConsistent s
    → IsConsistent (merge_entries env b st now s)
unfolding merge_entries
merge_entries-IsConsistent env b [] now s h = h
merge_entries-IsConsistent env b ((k, e) ∷ st) now s h =
    merge_entries-IsConsistent env b st now (merge_entry env b e now s)
      (merge_entry-IsConsistent env b e now s h)

-- `Merge` keeps the state and its version index in agreement, whatever the peer sent.
pub merge_peer-IsConsistent :
    (env : Env) (s : Silences) (b : Bytes) (now : Time)
    → IsConsistent s
    → IsConsistent (merge_peer env s b now).0
unfolding merge_peer
merge_peer-IsConsistent env s b now h =
    let (st, invalid) = decode_state env b in
    elim (Option-cases invalid) [
      | inr (e, p) ↦ rw (p, merge_peer) h
      | inl p ↦ rw (p, merge_peer) (merge_entries-IsConsistent env b st now s h)
    ]
