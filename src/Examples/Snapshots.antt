-- ===== src/Examples/Snapshots.antt =====
-- A snapshot of the notification log, with a small encoding of the entries of one receiver.
use Prim.{tt}
use codestra_alertmanager.Prelude.{
  ℕ, ◌≡◌, refl, Bool, true, false, Option, none, some, List, [], ◌∷◌, ◌++◌, ◌==◌, ◌&&◌, string_eq,
  arith, nat_beq, if◌then◌else◌, not, Bool-cases, inl, inr,
}
use codestra_alertmanager.Prelude.Maps.{lookup}
use codestra_alertmanager.Silence.Data.{is_nil}
use codestra_alertmanager.Nflog.Data.{MeshEntry, state_key, receiver_key, print_digits}
use codestra_alertmanager.Nflog.Log.{
  Bytes, Frame, whole, Wire, State, load_snapshot, marshal_binary,
}
use codestra_alertmanager.Nflog.Log.Snapshot.{load_snapshot-marshal_binary}
use codestra_alertmanager.Examples.Notifications.{web, logged}

-- The entries that the encoding knows have a time and nothing else of their own.
abbrev plain : ℕ → MeshEntry
plain t = record {
  entry = record {
    group_key = "g";
    receiver = web;
    group_hash = [];
    resolved = false;
    timestamp = some t;
    firing_alerts = [];
    resolved_alerts = [];
    receiver_data = [];
  };
  expires_at = some 900;
}

abbrev time_of : MeshEntry → Option ℕ
time_of e = e.entry.timestamp

abbrev is_some_nat : Option ℕ → ℕ → Bool
is_some_nat none n = false
is_some_nat (some m) n = nat_beq m n

abbrev is_plain : MeshEntry → ℕ → Bool
is_plain e t =
    e.entry.group_key == "g"
    && e.entry.receiver.group_name == "web"
    && e.entry.receiver.integration == "email"
    && nat_beq e.entry.receiver.idx 0
    && is_nil e.entry.group_hash
    && not e.entry.resolved
    && is_some_nat e.entry.timestamp t
    && is_nil e.entry.firing_alerts
    && is_nil e.entry.resolved_alerts
    && is_nil e.entry.receiver_data
    && is_some_nat e.expires_at 900

abbrev encode : MeshEntry → Option ℕ → Option Bytes
encode e none = none
encode e (some t) = if is_plain e t then some (t ∷ []) else none

decode : Bytes → List Frame × Bool
decode [] = ([], true)
decode (t ∷ b) = (whole (plain t) ∷ (decode b).0, (decode b).1)

abbrev small : Wire
small = record { marshal = λ e. encode e (time_of e); decode = decode }

is_plain_lem : (e : MeshEntry) (t : ℕ) → is_plain e t ≡ true → e ≡ plain t
is_plain_lem e t h = ground (
  arith,
  h,
  string_eq.beq_iff e.entry.group_key "g",
  string_eq.beq_iff e.entry.receiver.group_name "web",
  string_eq.beq_iff e.entry.receiver.integration "email",
)

reads_back :
    (e : MeshEntry) (o : Option ℕ) (b rest : Bytes)
    → encode e o ≡ some b
    → decode (b ++ rest) ≡ (whole e ∷ (decode rest).0, (decode rest).1)
unfolding decode
reads_back e none b rest h = ground (arith, h)
reads_back e (some t) b rest h = elim (Bool-cases (is_plain e t)) [
  | inl p ↦ ground (arith, h, p, is_plain_lem e t p)
  | inr p ↦ absurd (ground (arith, h, p))
]

abbrev written : State
written = ("g:web/email/0", plain 100) ∷ []

load_snapshot-marshal_binary_example :
    ((load_snapshot small logged (100 ∷ [])).1 ≡ none)
    × (lookup "g:web/email/0" (load_snapshot small logged (100 ∷ [])).0.st
        ≡ lookup "g:web/email/0" written)
unfolding marshal_binary decode state_key receiver_key print_digits lookup
load_snapshot-marshal_binary_example =
    load_snapshot-marshal_binary small refl (λ e b rest. reads_back e (time_of e) b rest) written
      logged (100 ∷ []) "g:web/email/0" (refl, tt) (refl, tt) refl
