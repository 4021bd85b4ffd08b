-- ===== src/Stops/History.antt =====
-- What the verified observations of src/execution/stops.py say together.
use agentic_quant.Prelude.{
  ◌≤◌, ◌≡◌, ◌⊎◌, refl, sym, ap, subst, ◌∙◌, Option, none, some, List, [], ◌∷◌, arith, inl, inr,
  Option-cases, not, ◌&&◌, if◌then◌else◌, same, same→eq,
}
use agentic_quant.Prelude.Lists.{AllOf}
use agentic_quant.Prelude.Result.{Result, ok, err, guard-eq-ok, >>=-eq-ok}
use agentic_quant.Domain.Common.{Text}
use agentic_quant.Domain.Orders.{OrderIntent}
use agentic_quant.Domain.Bars.{OpeningEvent}
use agentic_quant.Stops.{
  StopObservation, StopObservation-discrete, StopError, not_eligible, no_threshold, step,
}
use agentic_quant.Stops.Election.{step_elected}
use agentic_quant.Stops.Retained.{
  source, stepped, observations, last_of, seen_in, has_any, verify_rows, check_policy, history,
  read_stop_state,
}
use agentic_quant.Ledger.State.{OrderRow, Book, get_order, stop_differs, event_at, stop_policy_id}

-- The later observation carries the election of the earlier one.
pub record SameElection (o s : StopObservation) : Type 0 where
  pub event : o.elected_event_id ≡ s.elected_event_id
  pub at : o.elected_at ≡ s.elected_at
  pub threshold : o.threshold ≡ s.threshold
  pub anchor : o.anchor ≡ s.anchor
  pub order : o.at ≤ s.at

-- The observation waited, or it was elected as the last one is.
abbrev pub Carried : StopObservation → StopObservation → Type 0
Carried s o = (o.elected_event_id ≡ none) ⊎ SameElection o s

stepped_ok :
    (m : Result StopError StopObservation) (o : StopObservation) → stepped m ≡ ok o → m ≡ ok o
stepped_ok (ok a) o h = ap ok (let e : a ≡ o = ground (arith, h) in e)
stepped_ok (err not_eligible) o h = ground (arith, h)
stepped_ok (err no_threshold) o h = ground (arith, h)

module _ (intent_hash : OrderIntent → Text) (event_hash : OpeningEvent → Text)
    (observation_hash : StopObservation → Text) (fill_name : Text → Text → Text) where
  -- The first row of a verified history, and the others.
  record Verified (i : OrderIntent) (b : Book) (seen : List StopObservation)
      (previous : Option StopObservation) (current : StopObservation)
      (others : List StopObservation) : Type 0 where
    event : OpeningEvent
    taken : step intent_hash event_hash observation_hash i event previous ≡ ok current
    rest :
        verify_rows intent_hash event_hash observation_hash fill_name i b
          (current ∷ seen)
          (some current)
          others
        ≡ ok tt

  verify_rows_lem :
      (i : OrderIntent) (b : Book) (seen : List StopObservation) (previous : Option StopObservation)
      (current : StopObservation) (others : List StopObservation)
      → verify_rows intent_hash event_hash observation_hash fill_name i b seen previous
          (current ∷ others)
        ≡ ok tt
      → Verified i b seen previous current others
  unfolding verify_rows
  verify_rows_lem i b seen previous current others h =
      let (event, found, h1) = >>=-eq-ok (source current.event_id b) _ h in
      let (expected, taken, h2) =
        >>=-eq-ok (stepped (step intent_hash event_hash observation_hash i event previous)) _ h1 in
      let (agrees, h3) =
        guard-eq-ok
          (same StopObservation-discrete current expected && not (seen_in current.event_id seen))
          stop_differs _ h2 in
      let same_row = same→eq StopObservation-discrete current expected (ground (arith, agrees)) in
      record {
        event = event;
        taken =
            stepped_ok (step intent_hash event_hash observation_hash i event previous) current
              (taken ∙ ap ok (sym same_row));
        rest = h3;
      }

  verified_elected :
      (i : OrderIntent) (b : Book) (rows seen : List StopObservation) (p s : StopObservation)
      (id : Text)
      → p.elected_event_id ≡ some id
      → verify_rows intent_hash event_hash observation_hash fill_name i b seen (some p) rows ≡ ok tt
      → last_of (some p) rows ≡ some s
      → SameElection p s
  verified_elected i b [] seen p s id elected h last =
      let e : p ≡ s = ground (arith, last) in
      subst (SameElection p) e
        (record { event = refl; at = refl; threshold = refl; anchor = refl; order = omega arith })
  verified_elected i b (q ∷ rows) seen p s id elected h last =
      let v = verify_rows_lem i b seen (some p) q rows h in
      let (a, t, r, c, le) =
        step_elected intent_hash event_hash observation_hash i v.event p q id elected v.taken in
      let k = verified_elected i b rows (q ∷ seen) q s id a v.rest last in
      let le' = k.order in
      record {
        event = elected ∙ sym a ∙ k.event;
        at = sym t ∙ k.at;
        threshold = sym r ∙ k.threshold;
        anchor = sym c ∙ k.anchor;
        order = omega (arith, le, le');
      }

  verified-Carried :
      (i : OrderIntent) (b : Book) (rows seen : List StopObservation)
      (previous : Option StopObservation) (s : StopObservation)
      → verify_rows intent_hash event_hash observation_hash fill_name i b seen previous rows ≡ ok tt
      → last_of previous rows ≡ some s
      → AllOf (Carried s) rows
  verified-Carried i b [] seen previous s h last = tt
  verified-Carried i b (o ∷ rows) seen previous s h last =
      let v = verify_rows_lem i b seen previous o rows h in
      (
        elim (Option-cases o.elected_event_id) [
          | inl waits ↦ inl waits
          | inr (id, elected) ↦
              inr (verified_elected i b rows (o ∷ seen) o s id elected v.rest last)
        ],
        verified-Carried i b rows (o ∷ seen) (some o) s v.rest last,
      )

  history-Carried :
      (i : OrderIntent) (b : Book) (rows : List StopObservation) (s : StopObservation)
      → history intent_hash event_hash observation_hash fill_name i b ≡ ok rows
      → last_of none rows ≡ some s
      → AllOf (Carried s) (observations i b.events)
  unfolding history
  history-Carried i b rows s h last =
      let (has_policy, policy, h1) =
        >>=-eq-ok
          (check_policy intent_hash event_hash observation_hash fill_name i
            (event_at (stop_policy_id i.intent_id) b.events))
          _ h in
      let all = observations i b.events in
      let (unit, verified, h2) =
        >>=-eq-ok (verify_rows intent_hash event_hash observation_hash fill_name i b [] none all) _
          h1 in
      let (paired, h3) =
        guard-eq-ok (if has_policy then has_any all else not (has_any all)) stop_differs (ok all)
          h2 in
      let e : all ≡ rows = ground (arith, h3) in
      verified-Carried i b all [] none s verified (ap (last_of none) e ∙ last)

  -- When `read_stop_state` returns an observation, every retained observation of the order either
  -- waited or was elected as that one is: by the same event, at the same time, with the same
  -- threshold and anchor, and not later.
  pub read_stop_state-Carried :
      (id : Text) (o : OrderRow) (b : Book) (s : StopObservation)
      → get_order id b ≡ ok o
      → read_stop_state intent_hash event_hash observation_hash fill_name id b ≡ ok (some s)
      → AllOf (Carried s) (observations o.intent b.events)
  unfolding read_stop_state
  read_stop_state-Carried id o b s found h =
      let (row, found', h1) = >>=-eq-ok (get_order id b) _ h in
      let same_order : row ≡ o = ground (arith, found, found') in
      let (rows, verified, h2) =
        >>=-eq-ok (history intent_hash event_hash observation_hash fill_name row.intent b)
          (λ (r : List StopObservation). ok (last_of none r)) h1 in
      let last : last_of none rows ≡ some s = ground (arith, h2) in
      subst (λ (x : OrderRow). AllOf (Carried s) (observations x.intent b.events)) same_order
        (history-Carried row.intent b rows s verified last)
