-- ===== src/Ledger/Reconcile/Steps.antt =====
-- Sequences of the operations of src/execution/ledger.py, for the components that call them.
use agentic_quant.Prelude.{refl, subst}
use agentic_quant.Domain.Common.{Text, Instrument}
use agentic_quant.Domain.Orders.{AccountSpec}
use agentic_quant.Domain.Fills.{Fill}
use agentic_quant.Ledger.State.{Book}
use agentic_quant.Ledger.Reconcile.Reach.{Step, Steps, Run}
use agentic_quant.Ledger.Reconcile.Growth.Defs.{Grows, Grows-refl, Grows-trans}
use agentic_quant.Ledger.Reconcile.Growth.{Step-Grows}

module _ (master : Text → Instrument) (allowed : Fill → Type 0) where
  pub Steps-one : (b b1 : Book) → Step master allowed b b1 → Steps master allowed b b1
  Steps-one b b1 step = Steps.more (Steps.stay refl) step

  pub Steps-trans :
      (b b1 b2 : Book)
      → Steps master allowed b b1
      → Steps master allowed b1 b2
      → Steps master allowed b b2
  Steps-trans b b1 b2 first (Steps.stay e) = subst (λ (x : Book). Steps master allowed b x) e first
  Steps-trans b b1 b2 first (Steps.more {b1 = b'} rest step) =
      Steps.more (Steps-trans b b1 b' first rest) step

  pub Run-Steps :
      (spec : AccountSpec) (b b1 : Book)
      → Run master allowed spec b
      → Steps master allowed b b1
      → Run master allowed spec b1
  Run-Steps spec b b1 r (Steps.stay e) = subst (λ (x : Book). Run master allowed spec x) e r
  Run-Steps spec b b1 r (Steps.more {b1 = b'} rest step) =
      Run.next (Run-Steps spec b b' r rest) step

  pub Steps-Grows : (b b1 : Book) → Steps master allowed b b1 → Grows allowed b b1
  Steps-Grows b b1 (Steps.stay e) = Grows-refl allowed b b1 e
  Steps-Grows b b1 (Steps.more {b1 = b'} rest step) =
      Grows-trans allowed b b' b1 (Steps-Grows b b' rest) (Step-Grows master allowed b' b1 step)
