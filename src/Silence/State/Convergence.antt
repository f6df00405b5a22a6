-- ===== src/Silence/State/Convergence.antt =====
-- `state.merge` of silence/silence.go as gossip uses it: messages in any order of arrival.
use Prim.Native.String.{String}
use mathlib.Core.List.{Permᴰ}
use codestra_alertmanager.Prelude.{
  ◌≡◌, refl, ◌∙◌, subst, Option, none, some, List, [], ◌∷◌, All, string_eq, arith,
}
use codestra_alertmanager.Prelude.Maps.{lookup}
use codestra_alertmanager.Clock.{Time, as_time}
use codestra_alertmanager.Silence.Data.{MeshSilence, upgrade_comments}
use codestra_alertmanager.Silence.State.{State, merge}
use codestra_alertmanager.Silence.State.Merging.{newest, lookup-merge, updated_at-upgrade}

-- The messages of a stream, merged one after the other.
unfoldable pub deliver : State → List MeshSilence → Time → State
deliver s [] now = s
deliver s (e ∷ es) now = deliver (merge s e now).0 es now

-- Two states that no lookup tells apart.
abbrev pub SameView : State → State → Type 0
SameView s t = (k : String) → lookup k s ≡ lookup k t

-- Two messages on one silence with one update time are the same message.
abbrev pub Coherent : MeshSilence → MeshSilence → Type 0
Coherent e f =
    e.silence.id ≡ f.silence.id
    → as_time e.silence.updated_at ≡ as_time f.silence.updated_at
    → e ≡ f

merge-SameView :
    (s t : State) (e : MeshSilence) (now : Time)
    → SameView s t
    → SameView (merge s e now).0 (merge t e now).0
merge-SameView s t e now h k = ground (arith, lookup-merge s e now k, lookup-merge t e now k, h k)

deliver-SameView :
    (s t : State) (es : List MeshSilence) (now : Time)
    → SameView s t
    → SameView (deliver s es now) (deliver t es now)
unfolding deliver
deliver-SameView s t [] now h k = h k
deliver-SameView s t (e ∷ es) now h k =
    deliver-SameView (merge s e now).0 (merge t e now).0 es now (merge-SameView s t e now h) k

newest_swap :
    (e f : MeshSilence) (o : Option MeshSilence)
    → (as_time e.silence.updated_at ≡ as_time f.silence.updated_at → e ≡ f)
    → newest (upgrade_comments e) (newest (upgrade_comments f) o)
      ≡ newest (upgrade_comments f) (newest (upgrade_comments e) o)
newest_swap e f none h = ground (arith, updated_at-upgrade e, updated_at-upgrade f)
newest_swap e f (some prev) h = ground (arith, updated_at-upgrade e, updated_at-upgrade f)

-- Two messages in either order lead to the same view.
pub merge_swap :
    (s : State) (e f : MeshSilence) (now : Time)
    → Coherent e f
    → SameView (merge (merge s e now).0 f now).0 (merge (merge s f now).0 e now).0
merge_swap s e f now h k = ground (
  arith,
  lookup-merge (merge s e now).0 f now k,
  lookup-merge (merge s f now).0 e now k,
  lookup-merge s e now k,
  lookup-merge s f now k,
  string_eq.beq_iff e.silence.id k,
  string_eq.beq_iff f.silence.id k,
  newest_swap e f (lookup k s),
)

-- Every message satisfies `P`, and messages that do are coherent with one another.
module _ (P : MeshSilence → Type 0) (coherent : (e f : MeshSilence) → P e → P f → Coherent e f)
    (now : Time) where
  All-permᴰ : {es fs : List MeshSilence} → Permᴰ es fs → All P es → All P fs
  All-permᴰ Permᴰ.nil h = h
  All-permᴰ (Permᴰ.cons e p) h = (subst P e h.0, All-permᴰ p h.1)
  All-permᴰ (Permᴰ.swap e f) h = (subst P f h.1.0, (subst P e h.0, h.1.1))
  All-permᴰ (Permᴰ.trans p q) h = All-permᴰ q (All-permᴰ p h)

  -- Messages that satisfy a predicate, delivered in any two orders to one state at one time, lead
  -- to states that no lookup tells apart, where of the messages that satisfy it those on one
  -- silence with one update time are the same message.
  pub deliver_reorder :
      {es fs : List MeshSilence} (s : State)
      → Permᴰ es fs
      → All P es
      → SameView (deliver s es now) (deliver s fs now)
  unfolding deliver
  deliver_reorder s Permᴰ.nil h k = refl
  deliver_reorder s (Permᴰ.cons {b = b} e p) h k = rw e (deliver_reorder (merge s b now).0 p h.1 k)
  deliver_reorder s (Permᴰ.swap {a = a} {b = b} {l = l} e f) h k =
      rw (← f, ← e)
        (deliver-SameView (merge (merge s a now).0 b now).0 (merge (merge s b now).0 a now).0 l now
          (merge_swap s a b now (coherent a b h.0 h.1.0)) k)
  deliver_reorder s (Permᴰ.trans p q) h k =
      deliver_reorder s p h k ∙ deliver_reorder s q (All-permᴰ p h) k
