-- ===== src/Examples/Silences.antt =====
-- The operations of silence/silence.go on a store with two silences, and its laws at that store.
use Prim.{tt}
use codestra_alertmanager.Prelude.{
  ◌+◌, ◌≡◌, refl, true, none, some, [], ◌∷◌, ◌==◌, length, string_eq, arith,
}
use codestra_alertmanager.Prelude.Maps.{lookup, insert, erase}
use codestra_alertmanager.Labels.{new_matcher}
use codestra_alertmanager.Silence.Data.{
  postprocess, prepare_for_marshalling, Silence, Matcher, equal, get_state, upgrade_comments,
}
use codestra_alertmanager.Silence.Validate.{
  validate_silence, validate_matcher_sets, validate_matcher_set, validate_matchers,
  validate_matcher, matches_empty, validate_times,
}
use codestra_alertmanager.Silence.Index.{
  add_matchers, add_version, compile_matcher, compile_matchers, compile_sets, match_type,
}
use codestra_alertmanager.Silence.State.{
  Env, Silences, merge, not_found, can_update, to_mesh_silence, expire, set_silence, get_silence,
  exceeds_count, exceeds_size, index_silence, marshal_mesh_silence, after_set_silence,
}
use codestra_alertmanager.Silence.Operations.{
  set, gc, merge_peer, gc_loop, gc_one, decode_state, merge_entries, merge_entry, oversized_message,
}
use codestra_alertmanager.Silence.Consistency.{IsConsistent}
use codestra_alertmanager.Silence.Consistency.Writes.{set-IsConsistent, merge_peer-IsConsistent}
use codestra_alertmanager.Silence.Consistency.Removal.{gc-IsConsistent}
use codestra_alertmanager.Silence.Consistency.Collection.{lookup-gc, swept}
use codestra_alertmanager.Silence.Failure.{set_error}
use codestra_alertmanager.Silence.Effects.Stored.{set_stored}

abbrev pub job_matcher : Matcher
job_matcher = record { type = equal; name = "job"; pattern = "api" }

abbrev pub draft : Silence
draft = record {
  id = "";
  matchers = [];
  starts_at = some 100;
  ends_at = some 500;
  updated_at = none;
  comments = [];
  created_by = "ops";
  comment = "maintenance";
  annotations = [];
  matcher_sets = record { matchers = job_matcher ∷ [] } ∷ [];
  receiver_matcher_sets = [];
}

abbrev pub upcoming : Silence
upcoming = record draft { id = "b"; starts_at = some 300; updated_at = some 150 }

-- Every text and pattern is valid, and every message has one encoding and reads back as one silence.
abbrev pub env : Env
env = record {
  rules = record {
    valid_label_name = λ n. true;
    valid_label_value = λ v. true;
    compile = λ p. some (λ v. v == p);
  };
  marshal = λ e. some (1 ∷ []);
  decode = λ b. (record { silence = some upcoming; expires_at = some 1500 } ∷ [], true);
  size = λ e. 10;
}

abbrev pub no_silences : Silences
no_silences = record {
  retention = 1000;
  max_silences = none;
  max_silence_size_bytes = none;
  st = [];
  version = 0;
  mi = [];
  vi = [];
  broadcast = [];
}

abbrev pub one : Silences
one = (set env no_silences draft (some "a") 100 101 102).silences

abbrev pub two : Silences
two = (merge_peer env one (1 ∷ []) 200).0

pub no_silences-IsConsistent : IsConsistent no_silences
unfolding lookup
no_silences-IsConsistent = record {
  keyed = λ k e p. ground (arith, p);
  listed = λ k. refl;
  unique = tt;
  sorted = tt;
  bounded = tt;
}

one-IsConsistent : IsConsistent one
one-IsConsistent =
    set-IsConsistent env no_silences draft (some "a") 100 101 102 no_silences-IsConsistent

pub two-IsConsistent : IsConsistent two
two-IsConsistent = merge_peer-IsConsistent env one (1 ∷ []) 200 one-IsConsistent

-- An edit that `Set` answers with a new silence, the old one being expired.
abbrev edited : Silence
edited = record draft {
  id = "a";
  matcher_sets = record { matchers = [] } ∷ record { matchers = job_matcher ∷ [] } ∷ [];
}

set-IsConsistent_example : IsConsistent (set env two edited (some "c") 220 221 222).silences
set-IsConsistent_example = set-IsConsistent env two edited (some "c") 220 221 222 two-IsConsistent

merge_peer-IsConsistent_example : IsConsistent (merge_peer env two (1 ∷ []) 260).0
merge_peer-IsConsistent_example = merge_peer-IsConsistent env two (1 ∷ []) 260 two-IsConsistent

-- At this time both silences of the store have passed their retention.
gc-IsConsistent_example :
    IsConsistent (gc two 1500).0 × ((gc two 1500).1 + length (gc two 1500).0.vi ≡ length two.vi)
gc-IsConsistent_example = gc-IsConsistent two 1500 two-IsConsistent

lookup-gc_example : lookup "a" (gc two 1500).0.st ≡ swept 1500 (lookup "a" two.st)
lookup-gc_example = lookup-gc two 1500 two-IsConsistent "a"

collected : (gc two 1500).1 ≡ 2
unfolding gc gc_loop gc_one merge_peer decode_state merge_entries merge_entry merge set set_silence
    validate_silence postprocess validate_matcher_sets validate_matcher_set validate_matchers
    validate_matcher matches_empty validate_times get_silence exceeds_count exceeds_size new_matcher
    erase insert lookup get_state prepare_for_marshalling upgrade_comments add_matchers add_version
    compile_matcher compile_matchers compile_sets match_type oversized_message can_update expire
    index_silence marshal_mesh_silence to_mesh_silence
collected = refl

-- A `Set` with an ID that the store does not know.
unknown_id-error :
    (set env two (record draft { id = "zz" }) (some "c") 220 221 222).err ≡ some not_found
unfolding set set_silence validate_silence postprocess validate_matcher_sets validate_matcher_set
    validate_matchers validate_matcher matches_empty validate_times get_silence lookup insert
    merge_peer decode_state merge_entries merge_entry merge exceeds_count exceeds_size index_silence
    marshal_mesh_silence to_mesh_silence can_update upgrade_comments prepare_for_marshalling
    oversized_message
unknown_id-error = refl

set_error_example : (set env two (record draft { id = "zz" }) (some "c") 220 221 222).silences ≡ two
set_error_example =
    set_error env two (record draft { id = "zz" }) (some "c") 220 221 222 not_found unknown_id-error
      (ground arith)

-- A silence of the old form, with a list of comments.
abbrev commented : Silence
commented = record draft {
  comments = record { author = "amy"; comment = "deploy"; timestamp = none } ∷ [];
}

commented-no_error : (set env no_silences commented (some "a") 100 101 102).err ≡ none
unfolding set set_silence validate_silence postprocess validate_matcher_sets validate_matcher_set
    validate_matchers validate_matcher matches_empty validate_times get_silence lookup insert merge
    exceeds_count exceeds_size marshal_mesh_silence
commented-no_error = refl

set_stored_example :
    lookup "a" (set env no_silences commented (some "a") 100 101 102).silences.st
    ≡ some (to_mesh_silence no_silences (set env no_silences commented (some "a") 100 101 102).sil)
unfolding set set_silence validate_silence postprocess validate_matcher_sets validate_matcher_set
    validate_matchers validate_matcher matches_empty validate_times get_silence merge exceeds_count
    exceeds_size marshal_mesh_silence to_mesh_silence lookup after_set_silence upgrade_comments
set_stored_example =
    set_stored env no_silences commented (some "a") 100 101 102 (λ k e p. ground (arith, p))
      (λ k e p. ground (arith, p)) (λ uid p. refl) commented-no_error refl
