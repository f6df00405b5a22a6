-- ===== src/Nflog/Log/Snapshot.antt =====
-- The snapshot of nflog/nflog.go, which is also the full state that is sent to a peer.
use Prim.Native.String.{String}
use codestra_alertmanager.Prelude.{
  ◌≡◌, refl, ap, ◌∙◌, Bool, true, Option, none, some, List, [], ◌∷◌, ◌++◌, string_eq, arith,
  Option-cases, inl, inr,
}
use codestra_alertmanager.Prelude.Maps.{lookup, insert, lookup-insert}
use codestra_alertmanager.Nflog.Data.{MeshEntry}
use codestra_alertmanager.Nflog.Log.{
  Bytes, Frame, whole, Wire, State, Log, Err, entry_key, decode_frames, decode_state, load_snapshot,
  marshal_binary,
}
use codestra_alertmanager.Nflog.Log.Collection.{IsMap}

-- Every entry stands under its own key.
abbrev pub IsKeyed : State → Type 0
IsKeyed [] = Unit
IsKeyed ((k, e) ∷ st) = (entry_key e ≡ k) × IsKeyed st

frames : State → List Frame
frames [] = []
frames ((k, e) ∷ st) = whole e ∷ frames st

-- What a lookup finds in the entries, and else in what was there before.
abbrev over : Option MeshEntry → Option MeshEntry → Option MeshEntry
over none o = o
over (some e) o = some e

over-none : (o : Option MeshEntry) → over o none ≡ o
over-none none = refl
over-none (some e) = refl

decode_frames_lem :
    (st acc : State) (k : String)
    → IsKeyed st
    → IsMap st
    → ((decode_frames (frames st) true acc).1 ≡ none)
      × (lookup k (decode_frames (frames st) true acc).0 ≡ over (lookup k st) (lookup k acc))
unfolding lookup frames
decode_frames_lem [] acc k h m = (refl, refl)
decode_frames_lem ((j, e) ∷ st) acc k h m =
    let rest = decode_frames_lem st (insert (entry_key e) e acc) k h.1 m.1 in
    (
      rest.0,
      ground (
        arith,
        rest.1,
        lookup-insert (entry_key e) k e acc,
        h.0,
        m.0,
        string_eq.beq_iff j k,
        string_eq.beq_iff (entry_key e) k,
      ),
    )

load_snapshot-decoded :
    (w : Wire) (l : Log) (b : Bytes) (st : State)
    → decode_state w b ≡ (st, none)
    → load_snapshot w l b ≡ (record l { st = st }, none)
unfolding load_snapshot
load_snapshot-decoded w l b st h =
    rw (h, load_snapshot) (ap (λ (r : State × Option Err). (record l { st = r.0 }, none)) h)

module _ (w : Wire) (at_end : w.decode [] ≡ ([], true))
    (reads_back : (e : MeshEntry) (b rest : Bytes)
      → w.marshal e ≡ some b
      → w.decode (b ++ rest) ≡ (whole e ∷ (w.decode rest).0, (w.decode rest).1)) where
  decode-marshal_binary :
      (st : State) (b : Bytes) → marshal_binary w st ≡ some b → w.decode b ≡ (frames st, true)
  unfolding marshal_binary frames
  decode-marshal_binary [] b h = ground (arith, h, at_end)
  decode-marshal_binary ((k, e) ∷ st) b h = elim (Option-cases (w.marshal e)) [
    | inl n ↦ absurd (ground (arith, n, h))
    | inr (b', p) ↦ elim (Option-cases (marshal_binary w st)) [
      | inl n ↦ absurd (ground (arith, p, n, h))
      | inr (bs, q) ↦ ground (arith, p, q, h, reads_back e b' bs, decode-marshal_binary st bs)
    ]
  ]

  -- A snapshot of the notification log that was written without an error is loaded without an
  -- error, by whatever log, and every key then holds what it held when it was written, where the
  -- state that was written is a map with every entry under its own key, and the encoding reads
  -- back what it wrote.
  pub load_snapshot-marshal_binary :
      (st : State) (l : Log) (b : Bytes) (k : String)
      → IsKeyed st
      → IsMap st
      → marshal_binary w st ≡ some b
      → ((load_snapshot w l b).1 ≡ none) × (lookup k (load_snapshot w l b).0.st ≡ lookup k st)
  unfolding load_snapshot decode_state lookup
  load_snapshot-marshal_binary st l b k keyed m h =
      let r = decode_frames (frames st) true [] in
      let done = decode_frames_lem st [] k keyed m in
      let read : decode_state w b ≡ r =
        ap (λ (d : List Frame × Bool). decode_frames d.0 d.1 []) (decode-marshal_binary st b h) in
      let loaded : load_snapshot w l b ≡ (record l { st = r.0 }, none) =
        load_snapshot-decoded w l b r.0 (read ∙ ap (λ e. (r.0, e)) done.0) in
      rw loaded (refl, done.1 ∙ over-none (lookup k st))
