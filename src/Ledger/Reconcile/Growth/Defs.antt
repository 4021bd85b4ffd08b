-- ===== src/Ledger/Reconcile/Growth/Defs.antt =====
-- What no operation of src/execution/ledger.py takes back: the clock, the journal and the recorded
-- facts.
use agentic_quant.Prelude.{
  ◌≤◌, ◌≡◌, refl, sym, ap, ◌∙◌, Bool, List, [], ◌∷◌, ◌++◌, ◌⊎◌, some, arith, inl, inr, Option-cases,
}
use agentic_quant.Prelude.Result.{ok}
use agentic_quant.Domain.Common.{Text, Timestamp}
use agentic_quant.Domain.Fills.{Fill}
use agentic_quant.Prelude.Dict.{Dict, lookup}
use agentic_quant.Ledger.Reconcile.Tables.{FillsKept}
use agentic_quant.Ledger.State.{
  FillRow, JournalRow, Event, Book, clock, record_event, event_at, event_key,
}
use agentic_quant.Ledger.State.Effects.{clock_lem}

-- The clock has not gone back, the journal and the recorded facts have only gained rows at their
-- ends, the account's terms are the same, every booked fill stands as it was booked, and a fill that
-- is booked was booked before or is an allowed one.
pub record Grows (allowed : Fill → Type 0) (b b1 : Book) : Type 0 where
  pub rows : List JournalRow
  pub facts : List Event
  pub later : b.last_at ≤ b1.last_at
  pub written : b1.journal ≡ b.journal ++ rows
  pub received : b1.events ≡ b.events ++ facts
  pub terms : b1.spec ≡ b.spec
  pub booked : FillsKept b.fills b1.fills
  pub added :
      (id : Text) (row : FillRow)
      → lookup id b1.fills ≡ some row
      → (lookup id b.fills ≡ some row) ⊎ allowed row.fill

pub ++_nil {ℓ} : {A : Type ℓ} (rows : List A) → rows ++ [] ≡ rows
++_nil [] = refl
++_nil (r ∷ rows) = ap (λ x. r ∷ x) (++_nil rows)

++_assoc {ℓ} : {A : Type ℓ} (a b c : List A) → (a ++ b) ++ c ≡ a ++ (b ++ c)
++_assoc [] b c = refl
++_assoc (r ∷ a) b c = ap (λ x. r ∷ x) (++_assoc a b c)

pub Grows-same :
    (allowed : Fill → Type 0) (b b1 : Book)
    → b.last_at ≤ b1.last_at
    → b1.journal ≡ b.journal
    → b1.events ≡ b.events
    → b1.spec ≡ b.spec
    → b1.fills ≡ b.fills
    → Grows allowed b b1
Grows-same allowed b b1 t e f g h = record {
  rows = [];
  facts = [];
  later = t;
  written = e ∙ sym (++_nil b.journal);
  received = f ∙ sym (++_nil b.events);
  terms = g;
  booked = λ id row found. ap (λ (x : Dict FillRow). lookup id x) h ∙ found;
  added = λ id row found. inl (sym (ap (λ (x : Dict FillRow). lookup id x) h) ∙ found);
}

pub Grows-row :
    (allowed : Fill → Type 0) (b b1 : Book) (r : JournalRow)
    → b.last_at ≤ b1.last_at
    → b1.journal ≡ b.journal ++ r ∷ []
    → b1.events ≡ b.events
    → b1.spec ≡ b.spec
    → b1.fills ≡ b.fills
    → Grows allowed b b1
Grows-row allowed b b1 r t e f g h = record {
  rows = r ∷ [];
  facts = [];
  later = t;
  written = e;
  received = f ∙ sym (++_nil b.events);
  terms = g;
  booked = λ id row found. ap (λ (x : Dict FillRow). lookup id x) h ∙ found;
  added = λ id row found. inl (sym (ap (λ (x : Dict FillRow). lookup id x) h) ∙ found);
}

pub Grows-refl : (allowed : Fill → Type 0) (b b1 : Book) → b ≡ b1 → Grows allowed b b1
Grows-refl allowed b b1 e =
    Grows-same allowed b b1 (rw e (omega arith)) (sym (ap Book.journal e)) (sym (ap Book.events e))
      (sym (ap Book.spec e)) (sym (ap Book.fills e))

pub Grows-trans :
    (allowed : Fill → Type 0) (a b c : Book)
    → Grows allowed a b
    → Grows allowed b c
    → Grows allowed a c
Grows-trans allowed a b c g h = record {
  rows = g.rows ++ h.rows;
  facts = g.facts ++ h.facts;
  later = omega (arith, g.later, h.later);
  written = h.written ∙ ap (λ x. x ++ h.rows) g.written ∙ ++_assoc a.journal g.rows h.rows;
  received = h.received ∙ ap (λ x. x ++ h.facts) g.received ∙ ++_assoc a.events g.facts h.facts;
  terms = h.terms ∙ g.terms;
  booked = λ id row found. h.booked id row (g.booked id row found);
  added = λ id row found. elim (h.added id row found) [
    | inl before ↦ g.added id row before
    | inr fine ↦ inr fine
  ];
}

pub clock-Grows :
    (allowed : Fill → Type 0) (at : Timestamp) (b b1 : Book)
    → clock at b ≡ ok b1
    → Grows allowed b b1
clock-Grows allowed at b b1 h =
    let (moved, later) = clock_lem at b b1 h in
    Grows-same allowed b b1 (rw (ap Book.last_at moved) later) (ap Book.journal moved)
      (ap Book.events moved) (ap Book.spec moved) (ap Book.fills moved)

-- Either the fact is known, or it is added at the end.
record_event_adds :
    (e : Event) (b b1 : Book) (d : Bool)
    → record_event e b ≡ ok (d, b1)
    → (facts : List Event) × (b1 ≡ record b { events = b.events ++ facts })
unfolding record_event
record_event_adds e b b1 d h = elim (Option-cases (event_at (event_key e) b.events)) [
  | inl is_new ↦ (e ∷ [], ground (arith, rw (is_new, record_event) at h))
  | inr (old, found) ↦
      let same_book : b1 ≡ b = ground (arith, rw (found, record_event) at h) in
      ([], same_book ∙ λ i. record b { events = sym (++_nil b.events) i })
]

pub record_event-Grows :
    (allowed : Fill → Type 0) (e : Event) (b b1 : Book) (d : Bool)
    → record_event e b ≡ ok (d, b1)
    → Grows allowed b b1
record_event-Grows allowed e b b1 d h =
    let (facts, after) = record_event_adds e b b1 d h in
    record {
      rows = [];
      facts = facts;
      later = rw (ap Book.last_at after) (omega arith);
      written = ap Book.journal after ∙ sym (++_nil b.journal);
      received = ap Book.events after;
      terms = ap Book.spec after;
      booked = λ id row found. ap (λ (x : Book). lookup id x.fills) after ∙ found;
      added = λ id row found. inl (sym (ap (λ (x : Book). lookup id x.fills) after) ∙ found);
    }
