-- ===== src/Prelude/Table.antt =====
-- A database table as the list of its rows, and lemmas on what loops over selected rows do to it.
use Prim.Native.Nat.{ℕ}
use mathlib.Core.Path.{◌≡◌}
use mathlib.Core.Logic.{inl, inr}
use mathlib.Core.Bool.{Bool, true}
use mathlib.Core.List.{List, [], ◌∷◌}
use brokernode.Prelude.Tests.{◌==◌, if◌then◌else◌, Bool-cases}
use brokernode.Prelude.Lists.{All, All-map}

-- The rows that pass, in their order: a SELECT, or `append` in a loop.
abbrev pub keep {ℓ} : {A : Type ℓ} → (A → Bool) → List A → List A
keep p [] = []
keep p (x ∷ xs) = let rest = keep p xs in if p x then x ∷ rest else rest

-- A `for` over a slice, whose body turns one state into the next.
abbrev pub for_each {ℓ κ} : {A : Type ℓ} {S : Type κ} → (A → S → S) → List A → S → S
for_each body [] s = s
for_each body (a ∷ as') s = for_each body as' (body a s)

-- An UPDATE by primary key: every row with the key of r becomes r.
abbrev pub save_row {ℓ} : {A : Type ℓ} → (A → ℕ) → A → List A → List A
save_row id_of r [] = []
save_row id_of r (x ∷ xs) = (if id_of x == id_of r then r else x) ∷ save_row id_of r xs

-- Some element satisfies P.
pub data Any {A : Type 0} (P : A → Type 0) : List A → Type 0 where
  here : {x : A} {xs : List A} → P x → Any P (x ∷ xs)
  there : {x : A} {xs : List A} → Any P xs → Any P (x ∷ xs)

module _ {A : Type 0} (P : A → Type 0) where
  pub All-keep : (p : A → Bool) (xs : List A) → All P xs → All (λ x. P x × (p x ≡ true)) (keep p xs)
  All-keep p [] h = tt
  All-keep p (x ∷ xs) h = elim (Bool-cases (p x)) [
    | inl passes ↦ let tested = All-keep p xs h.1 in rw (passes, keep) ((h.0, passes), tested)
    | inr fails ↦ rw (fails, keep) (All-keep p xs h.1)
  ]

  pub All-save_row :
      (id_of : A → ℕ) (r : A) (xs : List A) → P r → All P xs → All P (save_row id_of r xs)
  All-save_row id_of r [] new h = tt
  All-save_row id_of r (x ∷ xs) new h = elim (Bool-cases (id_of x == id_of r)) [
    | inl same ↦ rw (same, save_row) (new, All-save_row id_of r xs new h.1)
    | inr other ↦ rw (other, save_row) (h.0, All-save_row id_of r xs new h.1)
  ]

  -- What the body keeps, for the elements that satisfy P, the loop keeps.
  pub for_each-keeps :
      {S : Type 0} (Inv : S → Type 0) (body : A → S → S) (xs : List A) (s : S)
      → ((x : A) (s : S) → P x → Inv s → Inv (body x s))
      → All P xs
      → Inv s
      → Inv (for_each body xs s)
  for_each-keeps Inv body [] s f h i = i
  for_each-keeps Inv body (x ∷ xs) s f h i =
      for_each-keeps Inv body xs (body x s) f h.1 (f x s h.0 i)

module _ {A : Type 0} (R : A → A → Type 0) where
  -- Every row of a table comes from some row of an earlier one.
  abbrev pub From : List A → List A → Type 0
  From old new = All (λ y. Any (λ x. R x y) old) new

  pub From-self : (xs : List A) → ((x : A) → R x x) → From xs xs
  From-self [] r = tt
  From-self (x ∷ xs) r = (here (r x), All-map _ _ xs (λ y h. there h) (From-self xs r))

  first :
      (y z : A) (xs : List A)
      → ((x y : A) → R x y → R y z → R x z)
      → R y z
      → Any (λ x. R x y) xs
      → Any (λ x. R x z) xs
  first y z xs trans r (here {x = x} h) = here (trans x y h r)
  first y z xs trans r (there {xs = rest} h) = there (first y z rest trans r h)

  extend :
      (xs : List A) (z : A) (ys : List A)
      → ((x y : A) → R x y → R y z → R x z)
      → From xs ys
      → Any (λ y. R y z) ys
      → Any (λ x. R x z) xs
  extend xs z ys trans h (here {x = y} r) = first y z xs trans r h.0
  extend xs z ys trans h (there {xs = rest} r) = extend xs z rest trans h.1 r

  pub From-trans :
      (xs ys zs : List A)
      → ((x y z : A) → R x y → R y z → R x z)
      → From xs ys
      → From ys zs
      → From xs zs
  From-trans xs ys zs trans h k = All-map _ _ zs (λ z. extend xs z ys (λ x y. trans x y z) h) k
