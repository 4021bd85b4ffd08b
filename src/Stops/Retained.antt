-- ===== src/Stops/Retained.antt =====
-- src/execution/stops.py: the observations that a book retains, and how an open is observed.
--
-- A row `paper-stop:<hash of the intent>:<hash of the observation>` is a `stop_event` of the intent
-- and the observation, and a row `paper-stop-policy:<id>` is the `stop_policy` of an intent. The
-- name of a local fill, `<intent>@<event>`, is a parameter, as the content hashes are.
use agentic_quant.Prelude.{
  Bool, true, false, not, ◌&&◌, ◌||◌, Option, none, some, List, [], ◌∷◌, ◌==◌, leb, if◌then◌else◌,
  is_some, same,
}
use agentic_quant.Prelude.Result.{Result, ok, err, ◌>>=◌, ◌>>◌, guard, raise_if, or_raise}
use agentic_quant.Prelude.Dict.{Dict}
use agentic_quant.Domain.Common.{Text}
use agentic_quant.Domain.Orders.{OrderIntent, OrderIntent-discrete, OrderType, Mode}
use agentic_quant.Domain.Fills.{Fill}
use agentic_quant.Domain.Bars.{OpeningEvent, OpeningEvent-discrete, from_bar}
use agentic_quant.Stops.{
  StopObservation, StopObservation-discrete, StopError, not_eligible, no_threshold, step,
}
use agentic_quant.Ledger.State.{
  stop_source, stop_inputs, stop_differs, live_stop, unauthentic_fill, not_elected, stop_orphan,
  stop_unproved, invalid_contract, Ledger, FillRow, Event, opening_id, open_id, stop_policy_id,
  Book, event_at, record_event, get_order,
}

-- `_source`: the opening print, or the completed bar that an older version consumed.
unfoldable pub source : Text → Book → Ledger OpeningEvent
source id b = elim (event_at (opening_id id) b.events) [
  | some (Event.opening_event e) ↦ ok e
  | _ ↦ elim (event_at (open_id id) b.events) [
    | some (Event.open_bar bar) ↦ ok (from_bar bar)
    | _ ↦ err stop_source
  ]
]

-- A step that is refused; a stop without its price does not pass the validator of orders.
abbrev pub stepped {ℓ} : {A : Type ℓ} → Result StopError A → Ledger A
stepped (ok a) = ok a
stepped (err not_eligible) = err stop_inputs
stepped (err no_threshold) = err invalid_contract

-- The rows of one intent, in the order in which they were inserted.
unfoldable pub observations : OrderIntent → List Event → List StopObservation
observations i [] = []
observations i (Event.stop_event j o ∷ events) =
    let rest = observations i events in if same OrderIntent-discrete j i then o ∷ rest else rest
observations i (_ ∷ events) = observations i events

abbrev pub last_of : Option StopObservation → List StopObservation → Option StopObservation
last_of previous [] = previous
last_of previous (o ∷ rest) = last_of (some o) rest

abbrev pub seen_in : Text → List StopObservation → Bool
seen_in id [] = false
seen_in id (o ∷ rest) = o.event_id == id || seen_in id rest

abbrev pub observation_of : Text → List StopObservation → Option StopObservation
observation_of id [] = none
observation_of id (o ∷ rest) = if o.event_id == id then some o else observation_of id rest

abbrev pub has_any : List StopObservation → Bool
has_any [] = false
has_any (o ∷ rest) = true

-- `ORDER BY at,rowid`
unfoldable pub insert_fill : Fill → List Fill → List Fill
insert_fill f [] = f ∷ []
insert_fill f (g ∷ fills) =
    if leb f.executed_at g.executed_at then f ∷ g ∷ fills else g ∷ insert_fill f fills

-- The method `fills`.
unfoldable pub sorted_fills : Dict FillRow → List Fill
sorted_fills [] = []
sorted_fills ((id, row) ∷ rows) = insert_fill row.fill (sorted_fills rows)

unfoldable pub fills_of : Text → List Fill → List Fill
fills_of id [] = []
fills_of id (f ∷ fills) =
    let rest = fills_of id fills in if f.intent_id == id then f ∷ rest else rest

abbrev pub is_fixed : OrderType → Bool
is_fixed OrderType.stop = true
is_fixed _ = false

abbrev pub is_live : Mode → Bool
is_live Mode.live = true
is_live _ = false

module _ (intent_hash : OrderIntent → Text) (event_hash : OpeningEvent → Text)
    (observation_hash : StopObservation → Text) (fill_name : Text → Text → Text) where
  -- The loop of `_history`, after the rows `seen`.
  unfoldable pub verify_rows :
      OrderIntent
      → Book
      → List StopObservation
      → Option StopObservation
      → List StopObservation
      → Ledger (Unit {0})
  verify_rows i b seen previous [] = ok tt
  verify_rows i b seen previous (current ∷ rest) = do
    event ← source current.event_id b
    expected ← stepped (step intent_hash event_hash observation_hash i event previous)
    guard (same StopObservation-discrete current expected && not (seen_in current.event_id seen))
        stop_differs
    verify_rows i b (current ∷ seen) (some current) rest

  -- `policy and json.loads(policy[0]) != …`
  unfoldable pub check_policy : OrderIntent → Option Event → Ledger Bool
  check_policy i none = ok false
  check_policy i (some (Event.stop_policy j)) =
      if same OrderIntent-discrete j i then ok true else err stop_differs
  check_policy i (some _) = err stop_differs

  -- `_history`
  unfoldable pub history : OrderIntent → Book → Ledger (List StopObservation)
  history i b = do
    has_policy ← check_policy i (event_at (stop_policy_id i.intent_id) b.events)
    let rows = observations i b.events
    verify_rows i b [] none rows
    guard (if has_policy then has_any rows else not (has_any rows)) stop_differs
    ok rows

  -- `read_stop_state`
  unfoldable pub read_stop_state : Text → Book → Ledger (Option StopObservation)
  read_stop_state id b = do o ← get_order id b; rows ← history o.intent b; ok (last_of none rows)

  unfoldable pub is_canonical : OrderIntent → Fill → OpeningEvent → Bool
  is_canonical i f e =
      is_fixed i.order_type
      && f.fill_id == fill_name i.intent_id e.event_id
      && f.executed_at == e.opened_at

  -- The fills of a version without observations, whose crossings are observed afterwards.
  unfoldable pub adopt :
      OrderIntent
      → List Fill
      → Option StopObservation
      → Book
      → Ledger (Option StopObservation × Book)
  adopt i [] previous b = ok (previous, b)
  adopt i (f ∷ fills) previous b = do
    event ← source f.event_id b
    guard (is_canonical i f event) unauthentic_fill
    elected ← stepped (step intent_hash event_hash observation_hash i event previous)
    guard (is_some elected.elected_event_id) not_elected
    (d, b1) ← record_event (Event.stop_event i elected) b
    adopt i fills (some elected) b1

  unfoldable pub preceding :
      OrderIntent → List StopObservation → Book → Ledger (Option StopObservation × Book)
  preceding i [] b = adopt i (fills_of i.intent_id (sorted_fills b.fills)) none b
  preceding i (o ∷ rows) b = ok (last_of (some o) rows, b)

  unfoldable pub observe_new :
      OrderIntent → OpeningEvent → List StopObservation → Book → Ledger (StopObservation × Book)
  observe_new i e rows b = do
    (d, b1) ← record_event (Event.stop_policy i) b
    (previous, b2) ← preceding i rows b1
    observation ← stepped (step intent_hash event_hash observation_hash i e previous)
    (d', b3) ← record_event (Event.stop_event i observation) b2
    ok (observation, b3)

  unfoldable pub observe_stop : OrderIntent → OpeningEvent → Book → Ledger (StopObservation × Book)
  observe_stop i e b = do
    raise_if (is_live b.spec.mode) live_stop
    o ← get_order i.intent_id b
    guard (same OrderIntent-discrete o.intent i) stop_source
    retained ← source e.event_id b
    guard (same OpeningEvent-discrete retained e) stop_source
    rows ← history i b
    elim (observation_of e.event_id rows) [
      | some previous ↦ ok (previous, b)
      | none ↦ observe_new i e rows b
    ]

  -- The intents that the retained rows name; the set is a list, in which one may stand twice.
  unfoldable pub identities : List Event → List Text
  identities [] = []
  identities (Event.stop_event i o ∷ events) = o.intent_id ∷ identities events
  identities (Event.stop_policy i ∷ events) = i.intent_id ∷ identities events
  identities (_ ∷ events) = identities events

  unfoldable pub check_policies : List Event → Book → Ledger (Unit {0})
  check_policies [] b = ok tt
  check_policies (Event.stop_policy i ∷ events) b = do
    o ← get_order i.intent_id b
    guard (same OrderIntent-discrete i o.intent) stop_differs
    check_policies events b
  check_policies (_ ∷ events) b = check_policies events b

  abbrev proves : Text → Fill → StopObservation → Bool
  proves id f proof =
      is_some proof.elected_event_id
      && f.executed_at == proof.at
      && f.fill_id == fill_name id proof.event_id

  unfoldable pub check_fills : Text → List StopObservation → List Fill → Ledger (Unit {0})
  check_fills id rows [] = ok tt
  check_fills id rows (f ∷ fills) = do
    proof ← or_raise (observation_of f.event_id rows) stop_unproved
    guard (proves id f proof) stop_unproved
    check_fills id rows fills

  unfoldable pub check_identities : List Text → Book → Ledger (Unit {0})
  check_identities [] b = ok tt
  check_identities (id ∷ ids) b = do
    o ← get_order id b
    rows ← history o.intent b
    guard (has_any rows) stop_orphan
    check_fills id rows (fills_of id (sorted_fills b.fills))
    check_identities ids b

  unfoldable pub verify_stop_history : Book → Ledger (Unit {0})
  verify_stop_history b = do check_policies b.events b; check_identities (identities b.events) b
