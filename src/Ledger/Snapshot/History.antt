-- ===== src/Ledger/Snapshot/History.antt =====
-- The published valuations of src/execution/ledger.py: `snapshot` with `persist`.
use agentic_quant.Prelude.{
  false, ◌≤◌, ◌≡◌, sym, ap, ◌∙◌, none, some, arith, inl, inr, ==-refl, Option-cases, Bool-cases,
  same, same→eq, not,
}
use agentic_quant.Prelude.Result.{ok, >>=-eq-ok, raise_if-eq-ok}
use agentic_quant.Prelude.Dict.{Dict, lookup, put, lookup-put}
use agentic_quant.Domain.Common.{Timestamp}
use agentic_quant.Ledger.State.{PortfolioSnapshot, PortfolioSnapshot-discrete, Book, rewrite_nav}
use agentic_quant.Ledger.State.Effects.{clock_lem}
use agentic_quant.Ledger.Snapshot.{conflicts, keep_first, publish}

publish_lem :
    (at : Timestamp) (snap : PortfolioSnapshot) (b b1 : Book)
    → publish at snap b ≡ ok b1
    → (conflicts (lookup at b.snapshots) snap ≡ false)
      × (b1 ≡ keep_first at snap (record b { last_at = at; peak = snap.high_water_mark }))
      × (b.last_at ≤ at)
unfolding publish
publish_lem at snap b b1 h =
    let (agrees, h1) = raise_if-eq-ok (conflicts (lookup at b.snapshots) snap) rewrite_nav _ h in
    let (b2, clocked, h2) = >>=-eq-ok _ _ h1 in
    let (moved, later) = clock_lem at b b2 clocked in
    let e : keep_first at snap (record b2 { peak = snap.high_water_mark }) ≡ b1 =
      ground (arith, h2) in
    (
      agrees,
      sym e
          ∙ ap (λ (x : Book). keep_first at snap (record x { peak = snap.high_water_mark })) moved,
      later,
    )

keep_first_fresh :
    (at : Timestamp) (snap : PortfolioSnapshot) (b : Book)
    → lookup at b.snapshots ≡ none
    → (keep_first at snap b).snapshots ≡ put at snap b.snapshots
keep_first_fresh at snap b e = ground arith

keep_first_there :
    (at : Timestamp) (snap old : PortfolioSnapshot) (b : Book)
    → lookup at b.snapshots ≡ some old
    → (keep_first at snap b).snapshots ≡ b.snapshots
keep_first_there at snap old b e = ground arith

put_kept :
    (t at : Timestamp) (snap old : PortfolioSnapshot) (rows : Dict PortfolioSnapshot)
    → lookup at rows ≡ none
    → lookup t rows ≡ some old
    → lookup t (put at snap rows) ≡ some old
put_kept t at snap old rows fresh e = ground (arith, lookup-put t at snap rows)

unchanged :
    (old snap : PortfolioSnapshot)
    → not (same PortfolioSnapshot-discrete old snap) ≡ false
    → old ≡ snap
unchanged old snap h = elim (Bool-cases (same PortfolioSnapshot-discrete old snap)) [
  | inl agrees ↦ same→eq PortfolioSnapshot-discrete old snap agrees
  | inr differs ↦ cc (rw differs at h)
]

-- Publishing stores the valuation under its time, and leaves every valuation that was published
-- before as it was.
pub publish_keeps :
    (at : Timestamp) (snap : PortfolioSnapshot) (b b1 : Book)
    → publish at snap b ≡ ok b1
    → (lookup at b1.snapshots ≡ some snap)
      × ((t : Timestamp) (old : PortfolioSnapshot)
          → lookup t b.snapshots ≡ some old
          → lookup t b1.snapshots ≡ some old)
publish_keeps at snap b b1 h =
    let (agrees, after, later) = publish_lem at snap b b1 h in
    elim (Option-cases (lookup at b.snapshots)) [
      | inl fresh ↦
          let stored = ap Book.snapshots after ∙ keep_first_fresh at snap _ fresh in
          (
            rw stored (rw (lookup-put, ==-refl at)),
            λ t old e. rw stored (put_kept t at snap old b.snapshots fresh e),
          )
      | inr (old, e) ↦
          let stored = ap Book.snapshots after ∙ keep_first_there at snap old _ e in
          (
            rw stored (e ∙ ap some (unchanged old snap (rw e at agrees))),
            λ t kept found. rw stored found,
          )
    ]
