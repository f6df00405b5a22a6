-- ===== src/Silence/Effects/Stored.antt =====
-- `Set` of silence/silence.go and what the state holds after it.
use Prim.Native.String.{String}
use codestra_alertmanager.Prelude.{
  ◌≡◌, refl, ◌∙◌, true, false, not, List, [], ◌∷◌, ◌+◌, subst, Option, none, some, ◌==◌, string_eq,
  arith, Option-cases, inl, inr, if_elim,
}
use codestra_alertmanager.Prelude.Maps.{lookup}
use codestra_alertmanager.Clock.{Time, Timestamp, as_time, before}
use codestra_alertmanager.Silence.Data.{
  Silence, MeshSilence, Comment, expired, get_state, state_beq, upgrade_comments, upgraded,
}
use codestra_alertmanager.Silence.Validate.{validate_silence}
use codestra_alertmanager.Silence.State.{
  Env, Err, State, Silences, set_silence, to_mesh_silence, get_silence, exceeds_count, exceeds_size,
  can_update, marshal_mesh_silence, after_set_silence,
}
use codestra_alertmanager.Silence.State.Merging.{
  newest, accepts, lookup-merge, updated_at-upgrade, id-upgrade,
}
use codestra_alertmanager.Silence.Operations.{
  SetOutcome, update, create, created, store_new, expire_replaced, set_valid, set, with_start,
}
use codestra_alertmanager.Silence.Consistency.Collection.{IsKeyed}
use codestra_alertmanager.Silence.Effects.{set_silence_st, expire_ne}

-- The message is newer than what the state holds under its ID, if it holds anything.
abbrev IsNews : State → MeshSilence → Type 0
IsNews st m =
    (prev : MeshSilence)
    → lookup m.silence.id st ≡ some prev
    → before (as_time prev.silence.updated_at) (as_time m.silence.updated_at) ≡ true

newest_news :
    (m e : MeshSilence) (o : Option MeshSilence)
    → ((prev : MeshSilence)
        → o ≡ some prev
        → before (as_time prev.silence.updated_at) (as_time m.silence.updated_at) ≡ true)
    → e.silence.updated_at ≡ m.silence.updated_at
    → newest e o ≡ some e
newest_news m e none h u = refl
newest_news m e (some prev) h u = ground (arith, h prev refl)

set_silence_stored :
    (env : Env) (s : Silences) (m : MeshSilence) (now : Time)
    → accepts m now ≡ true
    → IsNews s.st m
    → (set_silence env s m now).err ≡ none
    → lookup m.silence.id (set_silence env s m now).silences.st ≡ some (upgrade_comments m)
set_silence_stored env s m now a n p = rw (set_silence_st env s m now p) (
    ground (
      arith,
      lookup-merge s.st m now m.silence.id,
      string_eq.beq_iff m.silence.id m.silence.id,
      newest_news m (upgrade_comments m) (lookup m.silence.id s.st) n (updated_at-upgrade m),
    ))

after_set_silence-accepted :
    (env : Env) (s : Silences) (m : MeshSilence) (now : Time)
    → (set_silence env s m now).err ≡ none
    → accepts m now ≡ true
    → after_set_silence env m now ≡ (upgrade_comments m).silence
unfolding after_set_silence set_silence
after_set_silence-accepted env s m now p a = elim (Option-cases (marshal_mesh_silence env m)) [
  | inl n ↦ absurd (ground (arith, p, n))
  | inr (b, q) ↦ rw (q, after_set_silence) (ground arith)
]

upgraded_ends : (cs : List Comment) (sil : Silence) → (upgraded cs sil).ends_at ≡ sil.ends_at
upgraded_ends [] sil = refl
upgraded_ends (c ∷ cs) sil = refl

after_set_silence_ends :
    (env : Env) (m : MeshSilence) (now : Time)
    → (after_set_silence env m now).ends_at ≡ m.silence.ends_at
unfolding after_set_silence upgrade_comments
after_set_silence_ends env m now = elim (Option-cases (marshal_mesh_silence env m)) [
  | inl n ↦ rw (n, after_set_silence) refl
  | inr (b, q) ↦
      rw (q, after_set_silence) (ground (arith, upgraded_ends m.silence.comments m.silence))
]

-- What `setSilence` has stored is what the caller's silence has become.
set_silence_returned :
    (env : Env) (s t : Silences) (sil : Silence) (now : Time)
    → (set_silence env t (to_mesh_silence s sil) now).err ≡ none
    → accepts (to_mesh_silence s (after_set_silence env (to_mesh_silence s sil) now)) now ≡ true
    → IsNews t.st (to_mesh_silence s sil)
    → lookup
        (after_set_silence env (to_mesh_silence s sil) now).id
        (set_silence env t (to_mesh_silence s sil) now).silences.st
      ≡ some (to_mesh_silence s (after_set_silence env (to_mesh_silence s sil) now))
unfolding to_mesh_silence upgrade_comments
set_silence_returned env s t sil now p a n =
    let m = to_mesh_silence s sil in
    let ends = after_set_silence_ends env m now in
    let accepted : accepts m now ≡ true =
      subst (λ (x : Timestamp). not (before (as_time x + s.retention) now) ≡ true) ends a in
    let same = after_set_silence-accepted env t m now p accepted in
    let stored = set_silence_stored env t m now accepted n p in
    ground (arith, same, stored, ends, id-upgrade m)

-- The replaced silence, if there is one, has another ID than the new one.
abbrev HasOther : String → Option Silence → Type 0
HasOther uid none = Unit
HasOther uid (some prev) = (prev.id == uid) ≡ false

module _ (env : Env) (s : Silences) (fresh : Option String) (now : Time) (keyed : IsKeyed s.st)
    (past : (k : String) (e : MeshSilence)
      → lookup k s.st ≡ some e
      → before (as_time e.silence.updated_at) now ≡ true)
    (is_new : (uid : String) → fresh ≡ some uid → lookup uid s.st ≡ none) where
  -- If the outcome has no error, and what is stored has not passed its retention already, the state
  -- holds it under its ID.
  abbrev Stores : SetOutcome → Type 0
  Stores o =
      o.err ≡ none
      → accepts (to_mesh_silence s o.sil) now ≡ true
      → lookup o.sil.id o.silences.st ≡ some (to_mesh_silence s o.sil)

  update-Stores : (sil : Silence) → Stores (update env s sil now)
  unfolding to_mesh_silence
  update-Stores sil =
      let sil' = record sil { updated_at = some now } in
      let m = to_mesh_silence s sil' in
      if_elim Stores (exceeds_size env s m) _ _ (λ p. cc)
        (λ _ p a. set_silence_returned env s s sil' now p a (λ prev l. past sil.id prev l))

  module _ (uid : String) (f : fresh ≡ some uid) where
    expire_replaced_ne :
        (prev : Option Silence) (later latest : Time)
        → HasOther uid prev
        → lookup uid (expire_replaced env s prev later latest).0.st ≡ lookup uid s.st
    expire_replaced_ne none later latest h = refl
    expire_replaced_ne (some prev) later latest h =
        if_elim (λ (r : Silences × Option Err). lookup uid r.0.st ≡ lookup uid s.st)
          (state_beq (get_state prev later) expired) _ _ (λ _. refl)
          (λ _. expire_ne env s prev.id latest uid keyed h)

    store_new-Stores :
        (sil : Silence) (r : Silences × Option Err)
        → sil.id ≡ uid
        → lookup uid r.0.st ≡ none
        → Stores (store_new env sil (to_mesh_silence s sil) now r)
    unfolding to_mesh_silence
    store_new-Stores sil (t, some e) i l p a = cc
    store_new-Stores sil (t, none) i l p a =
        set_silence_returned env s t sil now p a (λ prev q. ground arith)

    create-Stores :
        (sil : Silence) (prev : Option Silence) (later latest : Time)
        → HasOther uid prev
        → Stores (create env s sil prev (some uid) now later latest)
    create-Stores sil prev later latest h =
        let sil' = created sil uid now in
        if_elim Stores (exceeds_count s) _ _ (λ _ p. cc)
          λ _.
            if_elim Stores (exceeds_size env s (to_mesh_silence s sil')) _ _ (λ _ p. cc)
              λ _.
                store_new-Stores sil' (expire_replaced env s prev later latest) refl
                  (expire_replaced_ne prev later latest h ∙ is_new uid f)

  create_any-Stores :
      (sil : Silence) (prev : Option Silence) (fr : Option String) (later latest : Time)
      → fresh ≡ fr
      → ((uid : String) → fr ≡ some uid → HasOther uid prev)
      → Stores (create env s sil prev fr now later latest)
  create_any-Stores sil prev none later latest f h =
      if_elim Stores (exceeds_count s) _ _ (λ _ p. cc) (λ _ p. cc)
  create_any-Stores sil prev (some uid) later latest f h =
      create-Stores uid f sil prev later latest (h uid refl)

  -- A stored silence does not have the new ID.
  other :
      (k : String) (e : MeshSilence) (uid : String)
      → fresh ≡ some uid
      → lookup k s.st ≡ some e
      → (e.silence.id == uid) ≡ false
  other k e uid f p = ground (arith, is_new uid f, string_eq.beq_iff e.silence.id uid, keyed k e p)

  set_found-Stores :
      (sil : Silence) (o : Option MeshSilence) (later latest : Time)
      → lookup sil.id s.st ≡ o
      → Stores (
          set_valid env s sil
            (elim o [ none ↦ none | some e ↦ some e.silence ])
            fresh
            now
            later
            latest)
  set_found-Stores sil none later latest l =
      if_elim Stores (sil.id == "") _ _
        (λ _. create_any-Stores sil none fresh later latest refl (λ uid f. tt)) (λ _ p. cc)
  set_found-Stores sil (some e) later latest l =
      if_elim Stores (can_update e.silence sil now) _ _ (λ _. update-Stores sil)
        (λ _.
          create_any-Stores sil (some e.silence) fresh later latest refl
            (λ uid f. other sil.id e uid f l))

  set-Stores : (sil : Silence) (later latest : Time) → Stores (set env s sil fresh now later latest)
  unfolding set
  set-Stores sil later latest =
      let (checked, invalid) = validate_silence env.rules (with_start sil now) in
      elim (Option-cases invalid) [
        | inr (f, p) ↦ rw (p, set) (λ q. cc)
        | inl p ↦
            rw (p, set)
              (unfold get_silence in
                set_found-Stores checked (lookup checked.id s.st) later latest refl)
      ]

pub set_stored :
    (env : Env) (s : Silences) (sil : Silence) (fresh : Option String) (now later latest : Time)
    → IsKeyed s.st
    → ((k : String) (e : MeshSilence)
        → lookup k s.st ≡ some e
        → before (as_time e.silence.updated_at) now ≡ true)
    → ((uid : String) → fresh ≡ some uid → lookup uid s.st ≡ none)
    → (set env s sil fresh now later latest).err ≡ none
    → accepts (to_mesh_silence s (set env s sil fresh now later latest).sil) now ≡ true
    → lookup
        (set env s sil fresh now later latest).sil.id
        (set env s sil fresh now later latest).silences.st
      ≡ some (to_mesh_silence s (set env s sil fresh now later latest).sil)
set_stored env s sil fresh now later latest keyed past is_new p a =
    set-Stores env s fresh now keyed past is_new sil later latest p a
