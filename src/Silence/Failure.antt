-- ===== src/Silence/Failure.antt =====
-- The error paths of `Set` and `Expire` of silence/silence.go.
use Prim.Native.String.{String}
use codestra_alertmanager.Prelude.{
  ◌≡◌, ◌≢◌, refl, Option, none, some, ◌==◌, string_eq, arith, Option-cases, inl, inr, if_elim,
}
use codestra_alertmanager.Clock.{Time}
use codestra_alertmanager.Silence.Data.{
  Silence, SilenceState, MeshSilence, expired, active, pending, get_state, state_beq,
}
use codestra_alertmanager.Silence.Validate.{validate_silence}
use codestra_alertmanager.Silence.State.{
  Env, Err, Silences, set_silence, expire, expire_found, ended_at, to_mesh_silence, get_silence,
  marshal_mesh_silence, exceeds_count, exceeds_size, can_update, marshal_failed,
}
use codestra_alertmanager.Silence.Operations.{
  SetOutcome, update, create, created, store_new, expire_replaced, set_valid, set, with_start,
}

pub set_silence_error :
    (env : Env) (s : Silences) (msil : MeshSilence) (now : Time) (e : Err)
    → (set_silence env s msil now).err ≡ some e
    → ((set_silence env s msil now).silences ≡ s) × (e ≡ marshal_failed)
unfolding set_silence
set_silence_error env s msil now e h = elim (Option-cases (marshal_mesh_silence env msil)) [
  | inl n ↦ ground arith
  | inr (b, p) ↦ ground arith
]

expire_found_error :
    (env : Env) (s : Silences) (sil : Silence) (state : SilenceState) (now : Time) (e : Err)
    → (expire_found env s sil state now).1 ≡ some e
    → (expire_found env s sil state now).0 ≡ s
expire_found_error env s sil expired now e h = refl
expire_found_error env s sil active now e h =
    (set_silence_error env s (to_mesh_silence s (ended_at active sil now)) now e h).0
expire_found_error env s sil pending now e h =
    (set_silence_error env s (to_mesh_silence s (ended_at pending sil now)) now e h).0

-- An `Expire` that returns an error has changed nothing.
pub expire_error :
    (env : Env) (s : Silences) (id : String) (now : Time) (e : Err)
    → (expire env s id now).1 ≡ some e
    → (expire env s id now).0 ≡ s
unfolding expire
expire_error env s id now e h = elim (Option-cases (get_silence s id)) [
  | inl n ↦ rw (n, expire)
  | inr (sil, p) ↦
      rw (p, expire) (expire_found_error env s sil (get_state sil now) now e (rw (p, expire) at h))
]

module _ (env : Env) (s : Silences) (e : Err) (ne : e ≢ marshal_failed) where
  -- An outcome with the error `e` leaves the store as it was.
  abbrev Leaves : SetOutcome → Type 0
  Leaves o = o.err ≡ some e → o.silences ≡ s

  update-Leaves : (sil : Silence) (now : Time) → Leaves (update env s sil now)
  update-Leaves sil now =
      let sil' = record sil { updated_at = some now } in
      if_elim Leaves (exceeds_size env s (to_mesh_silence s sil')) _ _ (λ _ _. refl)
        (λ _ h. (set_silence_error env s (to_mesh_silence s sil') now e h).0)

  store_new-Leaves :
      (sil : Silence) (msil : MeshSilence) (now : Time) (r : Silences × Option Err)
      → ((f : Err) → r.1 ≡ some f → r.0 ≡ s)
      → Leaves (store_new env sil msil now r)
  store_new-Leaves sil msil now (t, some f) h p = h f refl
  store_new-Leaves sil msil now (t, none) h p = absurd (ne (set_silence_error env t msil now e p).1)

  expire_replaced-Leaves :
      (prev : Option Silence) (later latest : Time) (f : Err)
      → (expire_replaced env s prev later latest).1 ≡ some f
      → (expire_replaced env s prev later latest).0 ≡ s
  expire_replaced-Leaves none later latest = λ f h. refl
  expire_replaced-Leaves (some prev) later latest = λ f.
      if_elim (λ (r : Silences × Option Err). r.1 ≡ some f → r.0 ≡ s)
        (state_beq (get_state prev later) expired) _ _ (λ _ _. refl)
        (λ _. expire_error env s prev.id latest f)

  create-Leaves :
      (sil : Silence) (prev : Option Silence) (fresh : Option String) (now later latest : Time)
      → Leaves (create env s sil prev fresh now later latest)
  create-Leaves sil prev none now later latest =
      if_elim Leaves (exceeds_count s) _ _ (λ _ _. refl) (λ _ _. refl)
  create-Leaves sil prev (some uid) now later latest =
      let sil' = created sil uid now in
      if_elim Leaves (exceeds_count s) _ _ (λ _ _. refl)
        λ _.
          if_elim Leaves (exceeds_size env s (to_mesh_silence s sil')) _ _ (λ _ _. refl)
            λ _.
              store_new-Leaves sil' (to_mesh_silence s sil') now
                (expire_replaced env s prev later latest) (expire_replaced-Leaves prev later latest)

  set_valid-Leaves :
      (sil : Silence) (prev : Option Silence) (fresh : Option String) (now later latest : Time)
      → Leaves (set_valid env s sil prev fresh now later latest)
  set_valid-Leaves sil none fresh now later latest =
      if_elim Leaves (sil.id == "") _ _ (λ _. create-Leaves sil none fresh now later latest)
        (λ _ _. refl)
  set_valid-Leaves sil (some prev) fresh now later latest =
      if_elim Leaves (can_update prev sil now) _ _ (λ _. update-Leaves sil now)
        (λ _. create-Leaves sil (some prev) fresh now later latest)

  set-Leaves :
      (sil : Silence) (fresh : Option String) (now later latest : Time)
      → Leaves (set env s sil fresh now later latest)
  unfolding set
  set-Leaves sil fresh now later latest =
      let (checked, invalid) = validate_silence env.rules (with_start sil now) in
      elim (Option-cases invalid) [
        | inr (f, p) ↦ rw (p, set) (λ _. refl)
        | inl p ↦
            rw (p, set) (set_valid-Leaves checked (get_silence s checked.id) fresh now later latest)
      ]

-- A `Set` that returns an error other than the one of the marshalling has changed nothing in the
-- store.
pub set_error :
    (env : Env) (s : Silences) (sil : Silence) (fresh : Option String) (now later latest : Time)
    (e : Err)
    → (set env s sil fresh now later latest).err ≡ some e
    → e ≢ marshal_failed
    → (set env s sil fresh now later latest).silences ≡ s
set_error env s sil fresh now later latest e h ne =
    set-Leaves env s e ne sil fresh now later latest h
