-- ===== src/Prelude/Lists.antt =====
-- A predicate that holds of every member of a list.
use mathlib.Core.List.{List, [], ◌∷◌, ◌++◌}

abbrev pub AllOf {ℓ} : {A : Type ℓ} → (A → Type 0) → List A → Type 0
AllOf P [] = Unit {0}
AllOf P (a ∷ rest) = P a × AllOf P rest

module _ {ℓ} {A : Type ℓ} where
  pub all_joined : (P : A → Type 0) (xs ys : List A) → AllOf P xs → AllOf P ys → AllOf P (xs ++ ys)
  all_joined P [] ys all all' = all'
  all_joined P (x ∷ xs) ys (p, all) all' = (p, all_joined P xs ys all all')

  pub all_carried :
      (P Q : A → Type 0) (xs : List A) → ((a : A) → P a → Q a) → AllOf P xs → AllOf Q xs
  all_carried P Q [] keep all = tt
  all_carried P Q (x ∷ xs) keep (p, all) = (keep x p, all_carried P Q xs keep all)
