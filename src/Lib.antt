-- ===== src/Lib.antt =====
-- A verification of the core of Alertmanager.
--
-- Alertmanager receives alerts, groups them, and notifies receivers. An alert that an active silence
-- matches is muted, and a log of notifications tells whether one is due. Silences and the log are
-- replicated among peers by gossip: each store merges the messages of the others. The parts
-- of the model, with the packages under upstream/ that they translate:
--
--   Clock      Go's time.Time and the protobuf timestamps: nanoseconds since the zero time
--   Labels     pkg/labels/matcher.go: NewMatcher, Matcher.Matches, Matchers.Matches,
--              MatcherSet.Matches
--   Alert      alert/: Merge, Validate, AlertSlice.Less, Alerts, AlertState.Compare
--   Silence    silence/: Data has the messages of silencepb and the conversions; Validate has
--              validateSilence; Index the matcher index and the version index; State the state,
--              its merge, setSilence and expire; Operations has Set, GC, the snapshot and Merge;
--              Query has the query parameters, Query, QueryOne and CountState; Silencer has Mutes
--              and its cache
--   Nflog      nflog/: Data has the messages of nflogpb and the receiver data store; Log has Log, GC,
--              Query, the snapshot and Merge
--   Notify     notify/: Reason has needsUpdate; Stages has DedupStage and SetNotifiesStage; Retry the
--              loop of RetryStage; Pipeline has MultiStage, FanoutStage, RoutingStage, MuteStage and
--              ClusterWaitStage; Intervals has TimeMuteStage and TimeActiveStage; Delivery lines up the
--              stages of a receiver, as createReceiverStage does, and Builder those before it, as
--              PipelineBuilder.New does
--   TimeInterval  timeinterval/: ContainsTime and Intervener.Mutes
--   Dispatch   dispatch/: Route has Match and Walk of the routing tree, and its Config NewRoute; Group has
--              the aggregation groups with insert and flush; Dispatcher the workers that run groupAlert,
--              with runAG, doMaintenance and the start
--   Marker     marker/: the markers of alerts and of groups
--   Parse      matcher/parse/: Lexer has the lexer, Parser what the parser accepts and expects of it, and
--              States its states, Matchers and Matcher
--   Limit      limit/bucket.go: the bucket of expiring values over a heap, with Upsert and IsStale
--   Store      store/store.go: the alerts of a store, with Set, Get, GC and DeleteIfNotModified
--   Inhibit    inhibit/: NewInhibitRule, processAlert, gcCallback and Mutes, over a Store per rule
--   Prelude    helpers: Boolean tests, equality as an instance, lists, association lists
--   Examples   runs at concrete inputs
--
-- A store is a record that an operation takes and gives back; a mutex makes an operation one step.
-- Every reading of the clock inside an operation is an argument of its own, as the clock may move
-- between two of them. A Go map is an association list, whose order stands for the order in which a
-- loop over the map meets its keys. An error is a value of a data type. The protobuf encoding, the
-- generation of UUIDs, regular expressions, fingerprints and the methods of prometheus/common are
-- parameters. Times and durations are natural numbers: the model has no time before the zero time,
-- and sums do not wrap, as an int64 of nanoseconds does not within 292 years. A version is a Go int
-- that counts up by one per added silence. A silence and an inhibition rule decide what a MuteStage
-- stops; an inhibitor keeps a store for each rule, and a store may keep a bucket for each alert name.
--
-- The binary search of findVersionGreaterThan runs on fuel, the length of the index, which is enough
-- since every round at least halves the interval. The procedures of container/heap run on fuel: `up` on
-- one more than the index, which falls, and `down` on the length of the slice. The decimal printer of a
-- receiver's index runs on ten digits, enough for a uint32. All other loops are structural; the retry
-- loop follows the list of the attempts that its context allows. Of the calls of Notify, the model keeps
-- those that returned no error; whether a call that returned one has reached its receiver is left open.
--
-- The dispatcher is a step relation over what its goroutines share, and a step is one access to it: any
-- number of workers run groupAlert, groups flush, the maintenance deletes, the start visits the groups,
-- in any order. A place, the index of a route and the fingerprint of the group labels, leads to a group.
--
-- The loops of the lexer run on one more than the bytes of the input, as every round takes one, and the
-- parser on three times the bytes and five, as a state either takes a token or has a lower rank than the
-- one before.
--
-- Not modelled: the alert provider, the rendering of route labels and the timers of a group, the fallback
-- between the parsers of matchers, the configuration beyond what a route and a rule read of it, and the
-- API; and all I/O: the receivers, the gossip transport, snapshot files, metrics, logging and tracing.
pub mod Prelude
pub mod Clock
pub mod Labels
pub mod Alert
pub mod Silence
pub mod Nflog
pub mod Notify
pub mod Examples
pub mod Dispatch
pub mod Limit
pub mod Store
pub mod Inhibit
pub mod TimeInterval
pub mod Marker
pub mod Parse
