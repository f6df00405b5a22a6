-- ===== src/Silence/History.antt =====
-- `getState`, `canUpdate` and `expire` of silence/silence.go: a silence before and after an edit.
use codestra_alertmanager.Prelude.{◌<◌, ◌≡◌, ◌≢◌, true, arith, if◌then◌else◌}
use codestra_alertmanager.Clock.{Time, as_time, unix, before, after}
use codestra_alertmanager.Silence.Data.{Silence, expired, active, get_state, matcher_sets_beq}
use codestra_alertmanager.Silence.State.{can_update, update_allowed, ended_at}

update_allowed_history :
    (a b : Silence) (now t : Time)
    → update_allowed (get_state a now) a b now ≡ true
    → t < now
    → unix t ≢ unix (as_time a.starts_at)
    → get_state b t ≡ get_state a t
unfolding get_state
update_allowed_history a b now t h lt ne = ground arith

-- A silence that `canUpdate` lets be overwritten has the matchers of the one that replaces it, and
-- at every earlier time the two were in the same state, except within the second in which the
-- silence started.
pub can_update_history :
    (a b : Silence) (now t : Time)
    → can_update a b now ≡ true
    → t < now
    → unix t ≢ unix (as_time a.starts_at)
    → (matcher_sets_beq a.matcher_sets b.matcher_sets ≡ true) × (get_state b t ≡ get_state a t)
unfolding can_update
can_update_history a b now t h lt ne =
    let same = matcher_sets_beq a.matcher_sets b.matcher_sets in
    (ground arith, update_allowed_history a b now t (ground arith) lt ne)

-- The silence that `expire` stores at a time in place of one that has not expired was in the same
-- state as that one at every earlier time, is active at that time, and is expired at every later
-- time.
pub ended_at_history :
    (sil : Silence) (now t : Time)
    → get_state sil now ≢ expired
    → get_state (ended_at (get_state sil now) sil now) t
      ≡ (if before t now then get_state sil t else if after t now then expired else active)
unfolding get_state
ended_at_history sil now t h = ground arith
