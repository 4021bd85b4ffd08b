-- ===== src/RiskControls/Passed.antt =====
-- What it means of the single checks of src/execution/risk_controls.py that they found nothing.
use agentic_quant.Prelude.Int.{pos, ◌≤ℤ◌, ◌<ℤ◌, ltb_ℤ, leb_ℤ, eqb_ℤ}
use agentic_quant.Prelude.{
  Bool, true, false, ◌≡◌, refl, Option, none, some, List, [], ◌∷◌, arith, inl, inr, Bool-cases,
  ◌==◌, ==_iff,
}
use agentic_quant.Prelude.Dict.{Dict, lookup}
use agentic_quant.Decimal.{Decimal, one, minus, times}
use agentic_quant.Domain.Common.{Text, Instrument}
use agentic_quant.Domain.Orders.{OrderIntent}
use agentic_quant.Ledger.State.{OrderRow, PortfolioSnapshot}
use agentic_quant.RiskControls.{
  InstrumentRisk, RiskPolicy, Check, fail_if, Projection, projection, order_value, final_exposures,
  check_sale, check_known, check_liquidity, nav_after_fee, projected_nav, cap, check_positions,
  Sectors, add_sector, sector_totals, any_above, check_sectors, cash_left, check_buy, check_side,
  turnover_after, check_all, evaluate_order,
}

pub fail_if-none :
    (t : Bool) (c : Check) (fs : List Check) → fail_if t c fs ≡ [] → (t ≡ false) × (fs ≡ [])
fail_if-none false c fs h = (refl, h)
fail_if-none true c fs h = cc h

pub not_above : (a b : Decimal) → ltb_ℤ b a ≡ false → a ≤ℤ b
not_above a b h = ground arith

check_positions-none :
    (policy : RiskPolicy) (nav : Decimal) (ids : Dict Instrument) (rows : Dict Decimal)
    (fs : List Check)
    → check_positions policy nav ids rows fs ≡ []
    → (fs ≡ [])
      × ((k : Text) (e : Decimal)
          → lookup k rows ≡ some e
          → e ≤ℤ times nav (cap policy (lookup k ids)))
unfolding check_positions lookup
check_positions-none policy nav ids [] fs h = (h, λ k e found. cc found)
check_positions-none policy nav ids ((j, exposure) ∷ rows) fs h =
    let (rest, below) = check_positions-none policy nav ids rows _ h in
    let (fits, first) =
      fail_if-none (ltb_ℤ (times nav (cap policy (lookup j ids))) exposure) Check.position_size fs
        rest in
    (
      first,
      λ k e found. elim (Bool-cases (j == k)) [
        | inr other ↦ below k e (rw other at found)
        | inl own ↦
            let same_key = (==_iff j k).0 own in
            let same_value : exposure ≡ e = cc (rw own at found) in
            rw (← same_value, ← same_key)
              (not_above exposure (times nav (cap policy (lookup j ids))) fits)
      ],
    )

add_sector-none :
    (policy : RiskPolicy) (s : PortfolioSnapshot) (exposure : Decimal) (id : Option Instrument)
    (m : Option InstrumentRisk) (t : Sectors)
    → (add_sector policy s exposure id m t).failures ≡ []
    → t.failures ≡ []
unfolding add_sector
add_sector-none policy s exposure id none t h = cc h
add_sector-none policy s exposure id (some m) t h = ground arith

sector_totals-none :
    (policy : RiskPolicy) (s : PortfolioSnapshot) (ids : Dict Instrument)
    (metas : Dict InstrumentRisk) (rows : Dict Decimal) (t : Sectors)
    → (sector_totals policy s ids metas rows t).failures ≡ []
    → t.failures ≡ []
unfolding sector_totals
sector_totals-none policy s ids metas [] t h = h
sector_totals-none policy s ids metas ((k, exposure) ∷ rows) t h =
    let rest = sector_totals-none policy s ids metas rows _ h in
    elim (Bool-cases (eqb_ℤ exposure (pos 0))) [
      | inl zero_exposure ↦ rw zero_exposure at rest
      | inr counted ↦
          add_sector-none policy s exposure (lookup k ids) (lookup k metas) t (rw counted at rest)
    ]

check_known-none :
    (policy : RiskPolicy) (i : OrderIntent) (s : PortfolioSnapshot) (m : InstrumentRisk)
    (fs : List Check)
    → check_known policy i s m fs ≡ []
    → (fs ≡ []) × (order_value i <ℤ times m.adv_base policy.max_adv_participation)
unfolding check_known
check_known-none policy i s m fs h = ground arith

check_sectors-none :
    (policy : RiskPolicy) (s : PortfolioSnapshot) (nav : Decimal) (ids : Dict Instrument)
    (metas : Dict InstrumentRisk) (exposures : Dict Decimal) (fs : List Check)
    → check_sectors policy s nav ids metas exposures fs ≡ []
    → fs ≡ []
unfolding check_sectors
check_sectors-none policy s nav ids metas exposures fs h =
    let t =
      sector_totals policy s ids metas exposures
        (record { totals = []; crypto = pos 0; failures = fs }) in
    let (below, h1) =
      fail_if-none (ltb_ℤ (times policy.crypto_total nav) t.crypto) Check.crypto_total _ h in
    let (none_above, h2) =
      fail_if-none (any_above (times policy.sector_weight nav) t.totals) Check.sector t.failures
        h1 in
    sector_totals-none policy s ids metas exposures _ h2

-- What the checks of a purchase have found.
pub check_buy-none :
    (policy : RiskPolicy) (i : OrderIntent) (s : PortfolioSnapshot) (p : Projection)
    (metas : Dict InstrumentRisk) (fs : List Check)
    → check_buy policy i s p metas fs ≡ []
    → (fs ≡ [])
      × (times policy.min_cash (projected_nav i s) ≤ℤ cash_left i s p)
      × (times s.high_water_mark (minus one policy.max_drawdown) <ℤ s.nav)
      × ((k : Text) (e : Decimal)
          → lookup k (final_exposures i s p) ≡ some e
          → e ≤ℤ times (projected_nav i s) (cap policy (lookup k p.identities)))
unfolding check_buy
check_buy-none policy i s p metas fs h =
    let h1 =
      check_sectors-none policy s (projected_nav i s) p.identities metas (final_exposures i s p) _
        h in
    let (h2, below) =
      check_positions-none policy (projected_nav i s) p.identities (final_exposures i s p) _ h1 in
    let (draw, h3) =
      fail_if-none (leb_ℤ s.nav (times s.high_water_mark (minus one policy.max_drawdown)))
        Check.drawdown_cb _ h2 in
    let (cash, h4) =
      fail_if-none (ltb_ℤ (cash_left i s p) (times policy.min_cash (projected_nav i s)))
        Check.cash_buffer fs h3 in
    (
      h4,
      not_above (times policy.min_cash (projected_nav i s)) (cash_left i s p) cash,
      ground (arith, draw),
      below,
    )

-- What the checks before and after those of the side have found.
pub check_all-none :
    (policy : RiskPolicy) (i : OrderIntent) (s : PortfolioSnapshot) (p : Projection)
    (metas : Dict InstrumentRisk)
    → check_all policy i s p metas ≡ []
    → (fs : List Check) × (check_side policy i s p metas fs ≡ [])
      × (fs ≡ []
          → (check_liquidity policy i s
                (lookup i.instrument.instrument_id metas)
                (check_sale i s p [])
              ≡ [])
            × (leb_ℤ (nav_after_fee i s) (pos 0) ≡ false))
      × (turnover_after i s p ≤ℤ times policy.max_daily_turnover s.nav)
unfolding check_all
check_all-none policy i s p metas h =
    let (turn, h1) =
      fail_if-none (ltb_ℤ (times policy.max_daily_turnover s.nav) (turnover_after i s p))
        Check.daily_turnover _ h in
    (
      _,
      h1,
      λ e.
          let (solvent, first) =
            fail_if-none (leb_ℤ (nav_after_fee i s) (pos 0)) Check.cash_buffer _ e in
          (first, solvent),
      not_above (turnover_after i s p) (times policy.max_daily_turnover s.nav) turn,
    )

pub known_meta :
    (policy : RiskPolicy) (i : OrderIntent) (s : PortfolioSnapshot) (m : Option InstrumentRisk)
    (fs : List Check)
    → check_liquidity policy i s m fs ≡ []
    → (known : InstrumentRisk) × (m ≡ some known)
      × (fs ≡ [])
      × (order_value i <ℤ times known.adv_base policy.max_adv_participation)
unfolding check_liquidity
known_meta policy i s none fs h = cc h
known_meta policy i s (some m) fs h =
    let (before, part) = check_known-none policy i s m fs h in (m, refl, before, part)

pub checked :
    (i : OrderIntent) (s : PortfolioSnapshot) (pending : List OrderRow)
    (metas : Dict InstrumentRisk) (policy : RiskPolicy)
    → evaluate_order i s pending metas policy ≡ []
    → check_all policy i s (projection i s pending) metas ≡ []
unfolding evaluate_order
checked i s pending metas policy h = ground arith
