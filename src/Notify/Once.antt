-- ===== src/Notify/Once.antt =====
-- `SetNotifiesStage` and `DedupStage` of notify/ together with the notification log between them.
use Prim.Native.String.{String}
use codestra_alertmanager.Prelude.{
  ℕ, ◌+◌, ◌*◌, ◌≤◌, ◌≡◌, refl, Bool, true, false, Option, none, some, List, [], ◌∷◌, ◌==◌, nat_eq,
  string_eq, arith, Option-cases, inl, inr,
}
use codestra_alertmanager.Prelude.Maps.{lookup, beq_refl}
use codestra_alertmanager.Clock.{Time, Duration, as_time, before}
use codestra_alertmanager.Alert.{Alert}
use codestra_alertmanager.Nflog.Data.{
  Receiver, Entry, MeshEntry, Store, state_key, is_subset, is_firing_subset, is_resolved_subset,
}
use codestra_alertmanager.Nflog.Log.{
  Err, Wire, Log, log, is_later, new_entry, query, entry_key, expires_at,
}
use codestra_alertmanager.Nflog.Log.Laws.{accepts, newest, lookup-merge}
use codestra_alertmanager.Notify.Reason.{
  do_not_notify, needs_update, needs_update_of, repeat_elapsed, should_notify,
}
use codestra_alertmanager.Notify.Stages.{
  Dedup, Context, partition_alerts, dedup, decide, or_clock, passed, set_notifies,
}

is_subset-cons :
    (set subset : List ℕ) (x : ℕ) → is_subset set subset ≡ true → is_subset (x ∷ set) subset ≡ true
unfolding is_subset
is_subset-cons set [] x h = refl
is_subset-cons set (k ∷ subset) x h = ground (arith, is_subset-cons set subset x)

pub is_subset_refl : (xs : List ℕ) → is_subset xs xs ≡ true
unfolding is_subset
is_subset_refl [] = refl
is_subset_refl (x ∷ xs) = ground (arith, is_subset-cons xs xs x (is_subset_refl xs))

-- A group whose firing and resolved alerts are those of the log's entry does not need a
-- notification at a time that is at most the repeat interval after the entry's timestamp.
pub needs_update_same :
    (send_resolved : Bool) (e : Entry) (firing resolved : List ℕ) (repeat : Duration) (now t : Time)
    → e.firing_alerts ≡ firing
    → e.resolved_alerts ≡ resolved
    → as_time e.timestamp ≡ t
    → now ≤ t + repeat
    → needs_update send_resolved (some e) firing resolved repeat now ≡ do_not_notify
unfolding needs_update needs_update_of is_firing_subset is_resolved_subset repeat_elapsed
needs_update_same send_resolved e firing resolved repeat now t f r ts le =
    ground (arith, is_subset_refl firing, is_subset_refl resolved)

-- What the log holds after a successful write: the entry that was written.
pub log_stored :
    (w : Wire) (l : Log) (r : Receiver) (gkey : String) (firing resolved : List ℕ)
    (store : Option Store) (expiry : Duration) (now merged : Time)
    → ((prev : MeshEntry)
        → lookup (state_key gkey r) l.st ≡ some prev
        → before (as_time prev.entry.timestamp) now ≡ true)
    → merged ≤ expires_at l.retention expiry now
    → (log w l r gkey firing resolved store expiry now merged).1 ≡ none
    → lookup (state_key gkey r) (log w l r gkey firing resolved store expiry now merged).0.st
      ≡ some (new_entry l.retention r gkey firing resolved store expiry now)
unfolding log
log_stored w l r gkey firing resolved store expiry now merged older le p =
    let e = new_entry l.retention r gkey firing resolved store expiry now in
    let key : entry_key e ≡ state_key gkey r = unfold new_entry in refl in
    let fits : accepts e merged ≡ true = unfold new_entry in ground arith in
    let first : is_later (lookup (state_key gkey r) l.st) now ≡ false =
      elim (Option-cases (lookup (state_key gkey r) l.st)) [
        | inl n ↦ ground arith
        | inr (prev, q) ↦ ground (arith, older prev q)
      ] in
    let wins : newest e (lookup (state_key gkey r) l.st) ≡ some e =
      elim (Option-cases (lookup (state_key gkey r) l.st)) [
        | inl n ↦ rw n
        | inr (prev, q) ↦ unfold new_entry in rw q (rw (older prev q))
      ] in
    elim (Option-cases (w.marshal e)) [
      | inl n ↦ ground arith
      | inr (b, q) ↦
          rw (first, q, log)
            (ground (
              arith,
              lookup-merge l.st e merged (state_key gkey r),
              key,
              fits,
              beq_refl (state_key gkey r),
              wins,
            ))
    ]

module _ (d : Dedup) (ctx : Context) (gkey : String) (repeat : Duration) (firing resolved : List ℕ)
    (has_key : ctx.group_key ≡ some gkey) (has_repeat : ctx.repeat_interval ≡ some repeat) where
  set_notifies-log :
      (w : Wire) (l : Log) (alerts : List Alert) (now merged : Time)
      → ctx.firing_alerts ≡ some firing
      → ctx.resolved_alerts ≡ some resolved
      → set_notifies w d.recv l ctx alerts now merged
        ≡ passed ctx alerts
            (log w l d.recv gkey firing resolved ctx.nflog_store (2 * repeat) now merged)
  unfolding set_notifies
  set_notifies-log w l alerts now merged f r = rw (has_key, f, r, has_repeat)

  -- The stage with an entry in the log decides by it.
  dedup-entry :
      (l : Log) (alerts : List Alert) (clock : Time) (e : MeshEntry)
      → partition_alerts d alerts ≡ (firing, resolved)
      → (gkey == "") ≡ false
      → lookup (state_key gkey d.recv) l.st ≡ some e
      → dedup d l ctx alerts clock
        ≡ decide d ctx alerts repeat firing resolved (or_clock ctx.now clock) (some e.entry)
  unfolding dedup query
  dedup-entry l alerts clock e p named found = rw (has_key, has_repeat, p, named, found)

-- A stage that decides against a notification lets no alert through.
decide_not :
    (d : Dedup) (ctx : Context) (alerts : List Alert) (repeat : Duration) (firing resolved : List ℕ)
    (now : Time) (e : Entry)
    → needs_update d.send_resolved (some e) firing resolved repeat now ≡ do_not_notify
    → let out = decide d ctx alerts repeat firing resolved now (some e) in
      (out.alerts ≡ []) × (out.err ≡ none) × (out.ctx.notification_reason ≡ some do_not_notify)
unfolding should_notify
decide_not d ctx alerts repeat firing resolved now e p = rw p (refl, refl, refl)

passed-err :
    (ctx : Context) (alerts : List Alert) (out : Log × Option Err)
    → (passed ctx alerts out).1.err ≡ none
    → out.1 ≡ none
passed-err ctx alerts (l, none) p = refl
passed-err ctx alerts (l, some e) p = ground (arith, p)

passed-log :
    (ctx : Context) (alerts : List Alert) (out : Log × Option Err)
    → (passed ctx alerts out).0 ≡ out.0
passed-log ctx alerts (l, none) = refl
passed-log ctx alerts (l, some e) = refl

-- When `SetNotifiesStage` has returned without an error, where the log held no entry for the group
-- and receiver that is as new and the merge took place before the expiry of the entry, then the
-- deduplication of a later flush of the same group, with a key that is not empty and the same
-- firing and resolved alerts, at a time that is at most its repeat interval after the
-- notification, returns no error, no alerts, and the reason not to notify.
pub dedup-set_notifies :
    (w : Wire) (l : Log) (d : Dedup) (ctx later : Context) (alerts again : List Alert)
    (gkey : String) (repeat repeat' : Duration) (firing resolved : List ℕ) (now merged clock : Time)
    → ctx.group_key ≡ some gkey
    → ctx.repeat_interval ≡ some repeat
    → ctx.firing_alerts ≡ some firing
    → ctx.resolved_alerts ≡ some resolved
    → later.group_key ≡ some gkey
    → later.repeat_interval ≡ some repeat'
    → partition_alerts d again ≡ (firing, resolved)
    → (gkey == "") ≡ false
    → ((prev : MeshEntry)
        → lookup (state_key gkey d.recv) l.st ≡ some prev
        → before (as_time prev.entry.timestamp) now ≡ true)
    → merged ≤ expires_at l.retention (2 * repeat) now
    → (set_notifies w d.recv l ctx alerts now merged).1.err ≡ none
    → or_clock later.now clock ≤ now + repeat'
    → let out = dedup d (set_notifies w d.recv l ctx alerts now merged).0 later again clock in
      (out.alerts ≡ []) × (out.err ≡ none) × (out.ctx.notification_reason ≡ some do_not_notify)
dedup-set_notifies w l d ctx later alerts again gkey repeat repeat' firing resolved now merged clock
      key rep f r key' rep' p named older le ok soon =
    let out = log w l d.recv gkey firing resolved ctx.nflog_store (2 * repeat) now merged in
    let e = new_entry l.retention d.recv gkey firing resolved ctx.nflog_store (2 * repeat) now in
    let notified =
      set_notifies-log d ctx gkey repeat firing resolved key rep w l alerts now merged f r in
    let fine : out.1 ≡ none = passed-err ctx alerts out (rw notified at ok) in
    let found : lookup (state_key gkey d.recv) out.0.st ≡ some e =
      log_stored w l d.recv gkey firing resolved ctx.nflog_store (2 * repeat) now merged older le
        fine in
    let quiet : needs_update d.send_resolved (some e.entry) firing resolved repeat'
          (or_clock later.now clock)
        ≡ do_not_notify =
      unfold new_entry in
      needs_update_same d.send_resolved e.entry firing resolved repeat' (or_clock later.now clock)
        now refl refl refl soon in
    rw
      (
        notified,
        passed-log ctx alerts out,
        dedup-entry d later gkey repeat' firing resolved key' rep' out.0 again clock e p named
            found,
      )
      (decide_not d later again repeat' firing resolved (or_clock later.now clock) e.entry quiet)
