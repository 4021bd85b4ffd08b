-- ===== src/Lib.antt =====
-- The accounting core of AgenticQuant: the portfolio ledger and what guards it.
--
-- The program trades several strategies through one ledger. Contracts (src/domain) are immutable
-- records that validate themselves. `PortfolioLedger` (src/execution/ledger.py) keeps accounts,
-- orders, fills, holdings, marks, a journal and published valuations in a database; every method
-- runs in one transaction. An order is checked by the risk controls
-- (src/execution/risk_controls.py), submitted and reserved in the ledger, elected by observed opens
-- if it is a stop (src/execution/stops.py), and filled; fees in kind
-- (src/execution/inventory_fees.py) are booked with their fill. `reconcile` replays the journal and
-- compares the result with what is stored.
--
-- Which file models which part:
--   Prelude            Boolean tests, integers, tables (Dict), errors as values (Result).
--   Decimal            Python's decimals under the default context, and the exact sums and products
--                      of src/domain/portfolio.py. Decimal.Bounds: signs and exactness.
--                      Decimal.Rounding: which digits a rounding keeps.
--   FillArithmetic     src/execution/fill_arithmetic.py.
--   Domain             Common: src/domain/common.py. Orders, Fills, Bars, Dividends, Coverage: the
--                      contracts of src/domain/portfolio.py with their validators.
--   Ledger.State       the tables, `_clock`, `_journal`, `record_event`, `order`, `pending`,
--                      `available_cash`, `quantity`, `_require_unpublished`.
--   Ledger.Orders      `create_account`, `submit`, `cancel`, `apply_account_fee`, `mark`.
--   Ledger.Fills       `apply_fill`, and `economic_payload`, `require_source` and `apply` of
--                      src/execution/inventory_fees.py.
--   Ledger.Actions     `corporate_action` and `position_opened_at`.
--   Ledger.Snapshot    `snapshot`.
--   Ledger.Reconcile   `reconcile` and `verify_payload`; its children carry the invariant that
--                      relates the replay to the book through every operation.
--   Stops              `_step` of src/execution/stops.py.
--                      Stops.Retained: the observations in a book, `observe_stop`, `read_stop_state`
--                      and `verify_stop_history`. Stops.History: what the observations that
--                      `read_stop_state` verified say together.
--   RiskControls       `evaluate_order` of src/execution/risk_controls.py.
--                      RiskControls.Projected: the sums that its loop over resting orders makes.
--   Simulator          `PaperExecution` of src/execution/simulator.py and `FillPolicy` of
--                      src/domain/portfolio.py: `submit` and `expire_orders`; in Simulator.Opening
--                      `open_event`, `open_bar` and `close_bar`. Its other children show how it uses
--                      the ledger.
--   LeanDecimal        `decimal_bits` of src/execution/lean_decimal.py.
--                      LeanDecimal.Representable: which decimals it takes.
--   Sleeves            `exact_sum`, `partition` and `quantities` of src/execution/sleeves.py.
--   Routing            `target_to_intents` and `intent_for_delta` of src/execution/routing.py.
--   Tests              runs on concrete inputs.
--
-- How the state is modelled. A book holds the rows of one account: its id stands in every key and
-- every condition of a query, so accounts do not meet. A transaction is a function that returns the
-- new book or an error; an error leaves the old book, as a rollback does. A payload is the contract
-- itself in place of its JSON. Texts, ids and hashes are numbers that are only compared, and a hash
-- that the code computes is a parameter or stands for its content. Times are microseconds in UTC.
-- A decimal is a number of units of 10^-40: values with more places, infinities, NaN and the
-- context's overflow traps are outside the model. The search for the last digit that a rounding
-- keeps runs on fuel, the number itself, which exceeds the count of its digits.
--
-- A run in Ledger.Reconcile.Reach is a sequence of orders, cancellations, fills, posted fees,
-- corporate actions, recorded facts and marks that returned. Valuations are defined, and are not
-- steps of a run. Its hypotheses: the initial cash fits in 28 digits, since the replay adds it to
-- zero under the context; an instrument id stands for one instrument, since the ledger compares it
-- with the held row only; a fill's quantity is positive, as its contract says; a split leaves units,
-- where a product below the last place would be zero; and an action that meets no position finds a
-- realized profit of at most 28 digits, since the replay adds a zero to it under the context.
--
-- `verify_payload` compares texts of decimals, and a value has no text: equal values may be written
-- with different numbers of zeros. Whether the texts agree is a parameter of the replay, and the
-- theorems on the replay are on fills without debits in kind, where no payload is verified.
--
-- An opening of the simulator comes without the identity of a native print, and the book holds no
-- receipt of one, so src/execution/opening_sources.py has nothing to compare.
--
-- Not modelled: the accounting of dividends and withheld taxes in the ledger, the book of the
-- sleeves, saved runs, in `reconcile` the checks of the projections and of withheld taxes and the
-- call of `verify_stop_history`; venues, brokers, data adapters, agents, optimisers and research,
-- which are clients of external services or numeric libraries.
pub mod Prelude
pub mod Decimal
pub mod Domain
pub mod Ledger
pub mod Stops
pub mod RiskControls
pub mod Simulator
pub mod LeanDecimal
pub mod Sleeves
pub mod Routing
pub mod Tests
pub mod FillArithmetic
