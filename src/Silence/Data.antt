-- ===== src/Silence/Data.antt =====
-- The messages of silence/silencepb, and `getState` and the conversions of silence/silence.go.
--
-- The fields are those of the protobuf messages. A nil message is an `Option` where the code tests
-- for it; `unknown` stands for every number that is not one of the enum's four.
use Prim.Native.String.{String}
use codestra_alertmanager.Prelude.{
  ℕ, Bool, true, false, not, List, [], ◌∷◌, ◌==◌, ◌&&◌, string_eq, nat_beq, if◌then◌else◌,
}
use codestra_alertmanager.Prelude.Maps.{Map}
use codestra_alertmanager.Clock.{Time, Timestamp, as_time, before, after}

pub data MatcherType : Type 0 where
  equal regexp not_equal not_regexp : MatcherType
  unknown : ℕ → MatcherType

pub record Matcher : Type 0 where
  pub type : MatcherType
  pub name : String
  pub pattern : String

pub record MatcherSet : Type 0 where
  pub matchers : List Matcher

pub record Comment : Type 0 where
  pub author : String
  pub comment : String
  pub timestamp : Timestamp

pub record Silence : Type 0 where
  pub id : String
  pub matchers : List Matcher
  pub starts_at : Timestamp
  pub ends_at : Timestamp
  pub updated_at : Timestamp
  pub comments : List Comment
  pub created_by : String
  pub comment : String
  pub annotations : Map String String
  pub matcher_sets : List MatcherSet
  pub receiver_matcher_sets : List MatcherSet

pub record MeshSilence : Type 0 where
  pub silence : Silence
  pub expires_at : Timestamp

pub data SilenceState : Type 0 where
  expired active pending : SilenceState

unfoldable pub get_state : Silence → Time → SilenceState
get_state sil ts =
    if before ts (as_time sil.starts_at)
    then pending
    else if after ts (as_time sil.ends_at)
    then expired
    else active

abbrev pub type_beq : MatcherType → MatcherType → Bool
type_beq equal equal = true
type_beq regexp regexp = true
type_beq not_equal not_equal = true
type_beq not_regexp not_regexp = true
type_beq (unknown n) (unknown m) = nat_beq n m
type_beq _ _ = false

abbrev pub state_beq : SilenceState → SilenceState → Bool
state_beq expired expired = true
state_beq active active = true
state_beq pending pending = true
state_beq _ _ = false

-- `slices.Contains(states, s)`
abbrev pub contains_state : List SilenceState → SilenceState → Bool
contains_state [] s = false
contains_state (x ∷ xs) s = if state_beq x s then true else contains_state xs s

-- `proto.Equal` of two matchers, and of two matcher sets.
abbrev pub matcher_beq : Matcher → Matcher → Bool
matcher_beq a b = type_beq a.type b.type && a.name == b.name && a.pattern == b.pattern

abbrev pub matchers_beq : List Matcher → List Matcher → Bool
matchers_beq [] [] = true
matchers_beq (a ∷ as') (b ∷ bs) = matcher_beq a b && matchers_beq as' bs
matchers_beq _ _ = false

-- `slices.EqualFunc(a.MatcherSets, b.MatcherSets, …)`
abbrev pub matcher_sets_beq : List MatcherSet → List MatcherSet → Bool
matcher_sets_beq [] [] = true
matcher_sets_beq (a ∷ as') (b ∷ bs) = matchers_beq a.matchers b.matchers && matcher_sets_beq as' bs
matcher_sets_beq _ _ = false

abbrev pub is_nil {ℓ} : {A : Type ℓ} → List A → Bool
is_nil [] = true
is_nil (x ∷ xs) = false

-- `postprocessUnmarshalledSilence`: the old field `matchers` becomes the first matcher set.
unfoldable pub postprocess : Silence → Silence
postprocess sil =
    if is_nil sil.matcher_sets && not (is_nil sil.matchers)
    then record sil { matcher_sets = record { matchers = sil.matchers } ∷ []; matchers = [] }
    else record sil { matchers = [] }

abbrev pub first_matchers : List MatcherSet → List Matcher → List Matcher
first_matchers [] old = old
first_matchers (ms ∷ rest) old = ms.matchers

-- `prepareSilenceForMarshalling`: the first matcher set is copied to the old field.
unfoldable pub prepare_for_marshalling : Silence → Silence
prepare_for_marshalling sil = record sil { matchers = first_matchers sil.matcher_sets sil.matchers }

-- The upgrade of the list of comments to the single comment, in `merge` and `loadSnapshot`.
abbrev pub upgraded : List Comment → Silence → Silence
upgraded [] sil = sil
upgraded (c ∷ rest) sil = record sil { comment = c.comment; created_by = c.author; comments = [] }

unfoldable pub upgrade_comments : MeshSilence → MeshSilence
upgrade_comments e = record e { silence = upgraded e.silence.comments e.silence }
