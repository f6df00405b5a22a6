-- ===== src/Silence/Consistency/Tidy.antt =====
-- The state that `decodeState` and `loadSnapshot` of silence/silence.go make of a snapshot.
use Prim.Native.String.{String}
use codestra_alertmanager.Prelude.{
  ◌≡◌, refl, ◌∙◌, Bool, true, false, none, some, List, [], ◌∷◌, ◌==◌, string_eq, arith, Bool-cases,
  Option-cases, inl, inr,
}
use codestra_alertmanager.Prelude.Maps.{lookup, insert, lookup-insert}
use codestra_alertmanager.Silence.Data.{MeshSilence, postprocess}
use codestra_alertmanager.Silence.State.{Bytes, Frame, Env, State}
use codestra_alertmanager.Silence.State.Merging.{id-upgrade}
use codestra_alertmanager.Silence.Operations.{decode_frames, decode_state, upgrade_all}

-- Every silence stands under its own ID, and no ID stands twice.
abbrev pub IsTidy : State → Type 0
IsTidy [] = Unit
IsTidy ((k, e) ∷ st) = (lookup k st ≡ none) × (e.silence.id ≡ k) × IsTidy st

insert-IsTidy : (st : State) (e : MeshSilence) → IsTidy st → IsTidy (insert e.silence.id e st)
unfolding insert lookup
insert-IsTidy [] e h = (refl, refl, tt)
insert-IsTidy ((j, f) ∷ st) e h = elim (Bool-cases (j == e.silence.id)) [
  | inl p ↦ rw p (ground (arith, h.0, string_eq.beq_iff j e.silence.id), refl, h.2)
  | inr n ↦ rw n (
    ground (
      arith,
      h.0,
      lookup-insert e.silence.id j e st,
      string_eq.beq_iff e.silence.id j,
      n,
      string_eq.beq_iff j e.silence.id,
    ),
    h.1,
    insert-IsTidy st e h.2,
  )
]

decode_frames-IsTidy :
    (fs : List Frame) (complete : Bool) (st : State)
    → IsTidy st
    → IsTidy (decode_frames fs complete st).0
decode_frames-IsTidy [] true st h = h
decode_frames-IsTidy [] false st h = h
decode_frames-IsTidy (f ∷ fs) complete st h = elim (Option-cases f.silence) [
  | inl n ↦ rw (n, decode_frames) h
  | inr (sil, p) ↦
      let q = postprocess sil in
      let e : MeshSilence = record { silence = q; expires_at = f.expires_at } in
      rw (p, decode_frames)
        (decode_frames-IsTidy fs complete (insert q.id e st) (insert-IsTidy st e h))
]

lookup-upgrade_all :
    (st : State) (k : String) → lookup k st ≡ none → lookup k (upgrade_all st) ≡ none
unfolding lookup
lookup-upgrade_all [] k h = refl
lookup-upgrade_all ((j, e) ∷ st) k h = ground (arith, lookup-upgrade_all st k)

pub upgrade_all-IsTidy : (st : State) → IsTidy st → IsTidy (upgrade_all st)
upgrade_all-IsTidy [] h = tt
upgrade_all-IsTidy ((j, e) ∷ st) h =
    (lookup-upgrade_all st j h.0, id-upgrade e ∙ h.1, upgrade_all-IsTidy st h.2)

pub Tidy-keyed :
    (st : State) (k : String) (e : MeshSilence)
    → IsTidy st
    → lookup k st ≡ some e
    → e.silence.id ≡ k
unfolding lookup
Tidy-keyed [] k e h p = ground (arith, p)
Tidy-keyed ((j, f) ∷ st) k e h p =
    ground (arith, p, h.1, string_eq.beq_iff j k, Tidy-keyed st k e h.2)

pub decode_state-IsTidy : (env : Env) (b : Bytes) → IsTidy (decode_state env b).0
unfolding decode_state
decode_state-IsTidy env b = decode_frames-IsTidy (env.decode b).0 (env.decode b).1 [] tt
