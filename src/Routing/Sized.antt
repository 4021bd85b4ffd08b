-- ===== src/Routing/Sized.antt =====
-- The orders that src/execution/routing.py returns for a target.
use agentic_quant.Prelude.Int.{pos, ◌<ℤ◌, eqb_ℤ, leb_ℤ, eqb_ℤ→eq}
use agentic_quant.Prelude.{
  ◌+◌, ◌≡◌, refl, subst, arith, true, false, ◌&&◌, ◌||◌, List, [], ◌∷◌, ◌++◌, inl, inr, Bool-cases,
  ◌==◌, same,
}
use agentic_quant.Prelude.Lists.{AllOf, all_joined}
use agentic_quant.Prelude.Result.{ok, >>=-eq-ok, guard-eq-ok, or_raise}
use agentic_quant.Prelude.Dict.{Dict, lookup}
use agentic_quant.Decimal.{Decimal, minus}
use agentic_quant.Domain.Common.{Text, Timestamp, Instrument, Instrument-discrete}
use agentic_quant.Domain.Orders.{OrderIntent, valid_order}
use agentic_quant.Domain.Fills.{PriceMark}
use agentic_quant.Ledger.State.{PortfolioSnapshot}
use agentic_quant.RiskControls.{InstrumentRisk}
use agentic_quant.Simulator.{FillPolicy}
use agentic_quant.Routing.{
  PortfolioTarget, unsettled, no_observation, identity_mismatch, stale_price, held_of, weights_of,
  targeted, with_held, keys_of, quantity_or_zero, desired_quantity, preserved, side_of,
  order_quantity, valid_intent, is_buy, goes_before, insert_intent, sort_intents, sized_intent,
  size_delta, size_key, size_keys, target_to_intents, is_fresh,
}

-- An order that the target asked for.
pub record Sized (t : PortfolioTarget) (s : PortfolioSnapshot) (i : OrderIntent) : Type 0 where
  pub account : i.account_id ≡ s.account_id
  pub run : i.run_id ≡ t.target_id
  pub decided : i.decision_at ≡ t.decision_at
  pub causal : i.eligible_at ≡ t.decision_at + 1
  pub positive : pos 0 <ℤ i.quantity
  pub valid : valid_order i ≡ ok tt

-- After a purchase there is no sale.
abbrev pub SalesFirst : List OrderIntent → Type 0
SalesFirst [] = Unit {0}
SalesFirst (i ∷ rest) = (is_buy i ≡ true → AllOf (λ j. is_buy j ≡ true) rest) × SalesFirst rest

module _ (P : OrderIntent → Type 0) where
  insert_all :
      (i : OrderIntent) (js : List OrderIntent) → P i → AllOf P js → AllOf P (insert_intent i js)
  unfolding insert_intent
  insert_all i [] p all = (p, tt)
  insert_all i (j ∷ js) p (q, all) = elim (Bool-cases (goes_before i j)) [
    | inl first ↦ rw first (p, (q, all))
    | inr later ↦ rw later (q, insert_all i js p all)
  ]

  sort_all : (js : List OrderIntent) → AllOf P js → AllOf P (sort_intents js)
  unfolding sort_intents
  sort_all [] all = tt
  sort_all (j ∷ js) (p, all) = insert_all j (sort_intents js) p (sort_all js all)

-- What goes before a purchase is anything; what a purchase goes before is a purchase.
buys_after : (i j : OrderIntent) → goes_before i j ≡ true → is_buy i ≡ true → is_buy j ≡ true
buys_after i j h b = ground arith

after_a_sale : (i j : OrderIntent) → goes_before i j ≡ false → is_buy j ≡ true → is_buy i ≡ true
after_a_sale i j h b = ground arith

insert-SalesFirst :
    (i : OrderIntent) (js : List OrderIntent) → SalesFirst js → SalesFirst (insert_intent i js)
unfolding insert_intent
insert-SalesFirst i [] sorted = (λ b. tt, tt)
insert-SalesFirst i (j ∷ js) (buys, sorted) = elim (Bool-cases (goes_before i j)) [
  | inl first ↦
      rw first (λ b. let later = buys_after i j first b in (later, buys later), (buys, sorted))
  | inr later ↦ rw later (
    λ b. insert_all (λ k. is_buy k ≡ true) i js (after_a_sale i j later b) (buys b),
    insert-SalesFirst i js sorted,
  )
]

sort-SalesFirst : (js : List OrderIntent) → SalesFirst (sort_intents js)
unfolding sort_intents
sort-SalesFirst [] = tt
sort-SalesFirst (j ∷ js) = insert-SalesFirst j (sort_intents js) (sort-SalesFirst js)

valid_intent_lem : (i : OrderIntent) → valid_intent (valid_order i) ≡ ok tt → valid_order i ≡ ok tt
valid_intent_lem i h = ground arith

module _ (intent_name : Text → Text → Text) where
  size_delta-Sized :
      (t : PortfolioTarget) (s : PortfolioSnapshot) (p : FillPolicy) (key : Text) (i : Instrument)
      (weight held delta : Decimal) (m : PriceMark) (lot : Decimal) (is : List OrderIntent)
      → size_delta intent_name t s p key i weight held delta m lot ≡ ok is
      → AllOf (Sized t s) is
  unfolding size_delta sized_intent
  size_delta-Sized t s p key i weight held delta m lot is h =
      let quantity = order_quantity p i s.nav weight delta held m lot in
      let order = sized_intent intent_name t s p key i (side_of delta) quantity m in
      elim (Bool-cases (eqb_ℤ delta (pos 0) || leb_ℤ quantity (pos 0))) [
        | inl nothing ↦
            subst (AllOf (Sized t s)) (let e : [] ≡ is = ground (arith, rw nothing at h) in e) tt
        | inr something ↦
            let (u, valid, h1) =
              >>=-eq-ok (valid_intent (valid_order order)) _ (rw something at h) in
            subst (AllOf (Sized t s)) (let e : order ∷ [] ≡ is = ground (arith, h1) in e) (
              record {
                account = refl;
                run = refl;
                decided = refl;
                causal = refl;
                positive = ground (arith, something);
                valid = valid_intent_lem order valid;
              },
              tt,
            )
      ]

  size_key-Sized :
      (t : PortfolioTarget) (s : PortfolioSnapshot) (marks : Dict PriceMark)
      (metadata : Dict InstrumentRisk) (p : FillPolicy) (max_age : Timestamp)
      (ids : Dict Instrument) (key : Text) (is : List OrderIntent)
      → size_key intent_name t s marks metadata p max_age ids key ≡ ok is
      → AllOf (Sized t s) is
  unfolding size_key
  size_key-Sized t s marks metadata p max_age ids key is h =
      let (m, marked, h1) = >>=-eq-ok (or_raise (lookup key marks) no_observation) _ h in
      let (meta, known, h2) = >>=-eq-ok (or_raise (lookup key metadata) no_observation) _ h1 in
      let (i, named, h3) = >>=-eq-ok (or_raise (lookup key ids) identity_mismatch) _ h2 in
      let (same_one, h4) =
        guard-eq-ok
          (same Instrument-discrete m.instrument i && same Instrument-discrete meta.instrument i)
          identity_mismatch _ h3 in
      let (fresh, h5) = guard-eq-ok (is_fresh t.decision_at m.as_of max_age) stale_price _ h4 in
      let held = quantity_or_zero key (held_of s.positions []) in
      let weight = quantity_or_zero key (weights_of t.weights []) in
      let (desired, kept, h6) =
        >>=-eq-ok
          (preserved (lookup key t.preserve_quantities) held
            (desired_quantity s.nav weight m meta.lot_size))
          _ h5 in
      size_delta-Sized t s p key i weight held (minus desired held) m meta.lot_size is h6

  size_keys-Sized :
      (t : PortfolioTarget) (s : PortfolioSnapshot) (marks : Dict PriceMark)
      (metadata : Dict InstrumentRisk) (p : FillPolicy) (max_age : Timestamp)
      (ids : Dict Instrument) (keys : List Text) (is : List OrderIntent)
      → size_keys intent_name t s marks metadata p max_age ids keys ≡ ok is
      → AllOf (Sized t s) is
  unfolding size_keys
  size_keys-Sized t s marks metadata p max_age ids [] is h =
      subst (AllOf (Sized t s)) (let e : [] ≡ is = ground (arith, h) in e) tt
  size_keys-Sized t s marks metadata p max_age ids (key ∷ keys) is h =
      let (first, sized, h1) =
        >>=-eq-ok (size_key intent_name t s marks metadata p max_age ids key) _ h in
      let (rest, others, h2) =
        >>=-eq-ok (size_keys intent_name t s marks metadata p max_age ids keys)
          (λ (x : List OrderIntent). ok (first ++ x)) h1 in
      subst (AllOf (Sized t s)) (let e : first ++ rest ≡ is = ground (arith, h2) in e) (
        all_joined (Sized t s) first rest
          (size_key-Sized t s marks metadata p max_age ids key first sized)
          (size_keys-Sized t s marks metadata p max_age ids keys rest others))

  -- The orders for a target: the snapshot is current and reserves no cash; each order is valid, of a
  -- positive quantity, decided with the target and eligible a microsecond later; and every sale
  -- stands before every purchase.
  pub target_to_intents-Sized :
      (t : PortfolioTarget) (s : PortfolioSnapshot) (marks : Dict PriceMark)
      (metadata : Dict InstrumentRisk) (p : FillPolicy) (max_age : Timestamp)
      (intents : List OrderIntent)
      → target_to_intents intent_name t s marks metadata p max_age ≡ ok intents
      → (s.as_of ≡ t.decision_at)
        × (s.reserved_cash ≡ pos 0)
        × AllOf (Sized t s) intents
        × SalesFirst intents
  unfolding target_to_intents
  target_to_intents-Sized t s marks metadata p max_age intents h =
      let (settled, h1) =
        guard-eq-ok (s.as_of == t.decision_at && eqb_ℤ s.reserved_cash (pos 0)) unsettled _ h in
      let ids = with_held s.positions (targeted t.weights []) in
      let (candidates, sized, h2) =
        >>=-eq-ok (size_keys intent_name t s marks metadata p max_age ids (keys_of ids))
          (λ (x : List OrderIntent). ok (sort_intents x)) h1 in
      let last : sort_intents candidates ≡ intents = ground (arith, h2) in
      (
        ground (arith, settled),
        eqb_ℤ→eq s.reserved_cash (pos 0) (ground (arith, settled)),
        subst (AllOf (Sized t s)) last (
            sort_all (Sized t s) candidates
              (size_keys-Sized t s marks metadata p max_age ids (keys_of ids) candidates sized)),
        subst SalesFirst last (sort-SalesFirst candidates),
      )
