-- ===== src/RiskControls/Projected.antt =====
-- What the projection of src/execution/risk_controls.py's `evaluate_order` comes to: sums over the
-- resting orders of other ids, added up from the left in the decimals' context.
use agentic_quant.Prelude.Int.{pos}
use agentic_quant.Prelude.{
  Bool, true, false, ◌≡◌, refl, ap, ◌∙◌, some, List, [], ◌∷◌, inl, inr, Bool-cases, ◌==◌, ==-refl,
  ==_iff, if◌then◌else◌, ◌&&◌, not,
}
use agentic_quant.Prelude.Dict.{Dict, lookup, put, lookup-put}
use agentic_quant.Decimal.{Decimal, plus, times}
use agentic_quant.Domain.Common.{Text, Instrument}
use agentic_quant.Domain.Orders.{OrderIntent, Side}
use agentic_quant.Ledger.State.{OrderRow, Holding, PortfolioSnapshot, remaining}
use agentic_quant.RiskControls.{
  Projection, zero_or, marks, mark_of, held_values, held_quantity, resting_value, project_buy,
  project_sell, project_order, project_orders, projection,
}

abbrev pub total : Decimal → List Decimal → Decimal
total acc [] = acc
total acc (d ∷ ds) = total (plus acc d) ds

abbrev pub buys : OrderRow → Bool
buys o = elim o.intent.side [ Side.buy ↦ true | Side.sell ↦ false ]

-- One resting order's amount, if it counts.
abbrev counted : Bool → Decimal → List Decimal → List Decimal
counted true d ds = d ∷ ds
counted false d ds = ds

abbrev pub is_other : OrderIntent → OrderRow → Bool
is_other i o = not (o.intent.intent_id == i.intent_id)

abbrev pub worth : OrderRow → Decimal
worth o = times (times (remaining o) o.intent.reference_price) o.intent.fx_rate

-- The cash that other purchases reserve.
abbrev pub resting_buys : OrderIntent → List OrderRow → List Decimal
resting_buys i [] = []
resting_buys i (o ∷ rows) = counted (is_other i o && buys o) o.reserved (resting_buys i rows)

-- The units that other sales of the same instrument are still to deliver.
abbrev pub resting_sells : OrderIntent → List OrderRow → List Decimal
resting_sells i [] = []
resting_sells i (o ∷ rows) =
    counted
      (is_other i o
        && not (buys o)
        && o.intent.instrument.instrument_id == i.instrument.instrument_id)
      (remaining o) (resting_sells i rows)

-- The value of all other orders.
abbrev pub resting_worth : OrderIntent → List OrderRow → List Decimal
resting_worth i [] = []
resting_worth i (o ∷ rows) = counted (is_other i o) (worth o) (resting_worth i rows)

-- The value of other purchases of the same instrument.
abbrev pub bought_worth : OrderIntent → List OrderRow → List Decimal
bought_worth i [] = []
bought_worth i (o ∷ rows) =
    counted
      (is_other i o && buys o && o.intent.instrument.instrument_id == i.instrument.instrument_id)
      (worth o) (bought_worth i rows)

-- The units and the value that are held: of positions with one id, the last counts.
abbrev pub held_units : Text → Decimal → List Holding → Decimal
held_units k acc [] = acc
held_units k acc (h ∷ hs) =
    held_units k (if h.instrument.instrument_id == k then h.quantity else acc) hs

abbrev pub held_worth : Text → Decimal → List Holding → Decimal
held_worth k acc [] = acc
held_worth k acc (h ∷ hs) =
    held_worth k (if h.instrument.instrument_id == k then h.market_value else acc) hs

marks_units :
    (k : Text) (hs : List Holding) (acc : Dict Holding)
    → held_quantity (lookup k (marks hs acc)) ≡ held_units k (held_quantity (lookup k acc)) hs
unfolding marks
marks_units k [] acc = refl
marks_units k (h ∷ hs) acc =
    marks_units k hs (put h.instrument.instrument_id h acc)
    ∙ ap (λ (x : Decimal). held_units k x hs)
        (rw lookup-put (elim (Bool-cases (h.instrument.instrument_id == k)) [
          | inl own ↦ rw own refl
          | inr other ↦ rw other refl
        ]))

held_values_worth :
    (k : Text) (hs : List Holding) (acc : Dict Decimal)
    → zero_or (lookup k (held_values hs acc)) ≡ held_worth k (zero_or (lookup k acc)) hs
unfolding held_values
held_values_worth k [] acc = refl
held_values_worth k (h ∷ hs) acc =
    held_values_worth k hs (put h.instrument.instrument_id h.market_value acc)
    ∙ ap (λ (x : Decimal). held_worth k x hs)
        (rw lookup-put (elim (Bool-cases (h.instrument.instrument_id == k)) [
          | inl own ↦ rw own refl
          | inr other ↦ rw other refl
        ]))

-- The instrument that the order's id stands for: that of the last other order which names it.
abbrev pub named : OrderIntent → Instrument → List OrderRow → Instrument
named i j [] = j
named i j (o ∷ rows) =
    named i
      (if is_other i o && o.intent.instrument.instrument_id == i.instrument.instrument_id
        then o.intent.instrument
        else j)
      rows

-- What one resting order adds to a sum.
Added : Decimal → Decimal → Bool → Decimal → Type 0
Added before after counts d = after ≡ (if counts then plus before d else before)

counted_sum :
    (before after : Decimal) (counts : Bool) (d : Decimal) (ds : List Decimal)
    → Added before after counts d
    → total after ds ≡ total before (counted counts d ds)
unfolding Added
counted_sum before after true d ds e = rw e refl
counted_sum before after false d ds e = rw e refl

-- The sums after one resting order.
record Counted (i : OrderIntent) (o : OrderRow) (p q : Projection) : Type 0 where
  reserved_buys : Added p.reserved_buys q.reserved_buys (is_other i o && buys o) o.reserved
  reserved_sells :
      Added p.reserved_sells q.reserved_sells
        (is_other i o
          && not (buys o)
          && o.intent.instrument.instrument_id == i.instrument.instrument_id)
        (remaining o)
  pending_value : Added p.pending_value q.pending_value (is_other i o) (worth o)
  exposure :
      Added
        (zero_or (lookup i.instrument.instrument_id p.exposures))
        (zero_or (lookup i.instrument.instrument_id q.exposures))
        (is_other i o && buys o && o.intent.instrument.instrument_id == i.instrument.instrument_id)
        (worth o)

project_side-Counted :
    (i : OrderIntent) (o : OrderRow) (p : Projection) (side : Side)
    → o.intent.side ≡ side
    → (o.intent.intent_id == i.intent_id) ≡ false
    → Counted i o p (project_order i o p)
unfolding Added project_order project_buy project_sell resting_value remaining
project_side-Counted i o p Side.buy s other =
    elim (Bool-cases (o.intent.instrument.instrument_id == i.instrument.instrument_id)) [
      | inl own ↦
          let same_id =
            (==_iff o.intent.instrument.instrument_id i.instrument.instrument_id).0 own in
          record {
            reserved_buys = rw (other, s) refl;
            reserved_sells = rw (other, s) refl;
            pending_value = rw (other, s) refl;
            exposure = rw (other, s, same_id, lookup-put, ==-refl) refl;
          }
      | inr apart ↦ record {
        reserved_buys = rw (other, s) refl;
        reserved_sells = rw (other, s) refl;
        pending_value = rw (other, s) refl;
        exposure = rw (other, s, apart, lookup-put) (rw apart refl);
      }
    ]
project_side-Counted i o p Side.sell s other =
    elim (Bool-cases (o.intent.instrument.instrument_id == i.instrument.instrument_id)) [
      | inl own ↦ record {
        reserved_buys = rw (other, s, own) refl;
        reserved_sells = rw (other, s, own) refl;
        pending_value = rw (other, s, own) refl;
        exposure = rw (other, s, own) refl;
      }
      | inr apart ↦ record {
        reserved_buys = rw (other, s, apart) refl;
        reserved_sells = rw (other, s, apart) refl;
        pending_value = rw (other, s, apart) refl;
        exposure = rw (other, s, apart) refl;
      }
    ]

project_order-Counted :
    (i : OrderIntent) (o : OrderRow) (p : Projection) → Counted i o p (project_order i o p)
unfolding Added project_order
project_order-Counted i o p = elim (Bool-cases (o.intent.intent_id == i.intent_id)) [
  | inr other ↦ project_side-Counted i o p o.intent.side refl other
  | inl own ↦ record {
    reserved_buys = rw own refl;
    reserved_sells = rw own refl;
    pending_value = rw own refl;
    exposure = rw own refl;
  }
]

-- The sums after the whole loop.
record Summed (i : OrderIntent) (rows : List OrderRow) (p q : Projection) : Type 0 where
  reserved_buys : q.reserved_buys ≡ total p.reserved_buys (resting_buys i rows)
  reserved_sells : q.reserved_sells ≡ total p.reserved_sells (resting_sells i rows)
  pending_value : q.pending_value ≡ total p.pending_value (resting_worth i rows)
  exposure :
      zero_or (lookup i.instrument.instrument_id q.exposures)
      ≡ total (zero_or (lookup i.instrument.instrument_id p.exposures)) (bought_worth i rows)

project_orders-Summed :
    (i : OrderIntent) (rows : List OrderRow) (p : Projection)
    → Summed i rows p (project_orders i rows p)
unfolding project_orders
project_orders-Summed i [] p = record {
  reserved_buys = refl;
  reserved_sells = refl;
  pending_value = refl;
  exposure = refl;
}
project_orders-Summed i (o ∷ rows) p =
    let one = project_order-Counted i o p in
    let rest = project_orders-Summed i rows (project_order i o p) in
    record {
      reserved_buys = rest.reserved_buys ∙ counted_sum _ _ _ _ _ one.reserved_buys;
      reserved_sells = rest.reserved_sells ∙ counted_sum _ _ _ _ _ one.reserved_sells;
      pending_value = rest.pending_value ∙ counted_sum _ _ _ _ _ one.pending_value;
      exposure = rest.exposure ∙ counted_sum _ _ _ _ _ one.exposure;
    }

project_identity :
    (i : OrderIntent) (o : OrderRow) (p : Projection) (j : Instrument) (side : Side)
    → o.intent.side ≡ side
    → lookup i.instrument.instrument_id p.identities ≡ some j
    → lookup i.instrument.instrument_id (project_order i o p).identities
      ≡ some (
          if is_other i o && o.intent.instrument.instrument_id == i.instrument.instrument_id
          then o.intent.instrument
          else j)
unfolding project_order project_buy project_sell
project_identity i o p j Side.buy s before = elim (Bool-cases (o.intent.intent_id == i.intent_id)) [
  | inl own ↦ rw own before
  | inr other ↦
      elim (Bool-cases (o.intent.instrument.instrument_id == i.instrument.instrument_id)) [
        | inl same_one ↦ rw (other, s, lookup-put, same_one) refl
        | inr apart ↦ rw (other, s, lookup-put, apart) before
      ]
]
project_identity i o p j Side.sell s before =
    elim (Bool-cases (o.intent.intent_id == i.intent_id)) [
      | inl own ↦ rw own before
      | inr other ↦
          elim (Bool-cases (o.intent.instrument.instrument_id == i.instrument.instrument_id)) [
            | inl same_one ↦ rw (other, s, same_one, lookup-put, same_one) refl
            | inr apart ↦ rw (other, s, apart, lookup-put, apart) before
          ]
    ]

projected_identity :
    (i : OrderIntent) (rows : List OrderRow) (p : Projection) (j : Instrument)
    → lookup i.instrument.instrument_id p.identities ≡ some j
    → lookup i.instrument.instrument_id (project_orders i rows p).identities ≡ some (named i j rows)
unfolding project_orders
projected_identity i [] p j before = before
projected_identity i (o ∷ rows) p j before =
    projected_identity i rows (project_order i o p) _
      (project_identity i o p j o.intent.side refl before)

module _ (i : OrderIntent) (s : PortfolioSnapshot) (rows : List OrderRow) where
  pub projection-reserved_buys :
      (projection i s rows).reserved_buys ≡ total (pos 0) (resting_buys i rows)
  unfolding projection
  projection-reserved_buys = (project_orders-Summed i rows _).reserved_buys

  pub projection-reserved_sells :
      (projection i s rows).reserved_sells ≡ total (pos 0) (resting_sells i rows)
  unfolding projection
  projection-reserved_sells = (project_orders-Summed i rows _).reserved_sells

  pub projection-pending_value :
      (projection i s rows).pending_value ≡ total (pos 0) (resting_worth i rows)
  unfolding projection
  projection-pending_value = (project_orders-Summed i rows _).pending_value

  pub projection-exposures :
      zero_or (lookup i.instrument.instrument_id (projection i s rows).exposures)
      ≡ total (held_worth i.instrument.instrument_id (pos 0) s.positions) (bought_worth i rows)
  unfolding projection lookup
  projection-exposures =
      (project_orders-Summed i rows _).exposure
      ∙ ap (λ (x : Decimal). total x (bought_worth i rows))
          (held_values_worth i.instrument.instrument_id s.positions [])

  pub projection-identities :
      lookup i.instrument.instrument_id (projection i s rows).identities
      ≡ some (named i i.instrument rows)
  unfolding projection
  projection-identities = projected_identity i rows _ i.instrument (
      lookup-put i.instrument.instrument_id i.instrument.instrument_id i.instrument _
      ∙ rw (==-refl i.instrument.instrument_id) refl)

pub mark_of-units :
    (k : Text) (hs : List Holding) → held_quantity (mark_of k hs) ≡ held_units k (pos 0) hs
unfolding lookup
mark_of-units k hs = marks_units k hs []
