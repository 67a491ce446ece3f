-- ===== src/Base/Lists.antt =====
-- Tables as lists of rows: what a query, a count, a sum or an `updateMany` does to one.
use Prim.Native.Nat.{ℕ, suc, ◌+◌}
use mathlib.Core.Path.{◌≡◌, refl, ap}
use mathlib.Core.Logic.{inl, inr}
use mathlib.Core.Bool.{Bool, true, false, ◌&&◌, ◌||◌}
use mathlib.Core.List.{List, [], ◌∷◌, ◌++◌}
use mathlib.Core.Option.{Option, none, some}
use native.Mathlib.Omega.{arith}
use content_intelligence_bac.Base.Tests.{if◌then◌else◌, Bool-cases}

module _ {ℓ} {A : Type ℓ} where
  abbrev pub length : List A → ℕ
  length [] = 0
  length (x ∷ xs) = suc (length xs)

  -- The first row that fits, as `findUnique` and `findFirst` return it.
  abbrev pub find : (A → Bool) → List A → Option A
  find p [] = none
  find p (x ∷ xs) = if p x then some x else find p xs

  -- `findMany`, in the order of the table.
  abbrev pub select : (A → Bool) → List A → List A
  select p [] = []
  select p (x ∷ xs) = let rest = select p xs in if p x then x ∷ rest else rest

  abbrev pub any : (A → Bool) → List A → Bool
  any p [] = false
  any p (x ∷ xs) = p x || any p xs

  abbrev pub all : (A → Bool) → List A → Bool
  all p [] = true
  all p (x ∷ xs) = p x && all p xs

  -- `updateMany`: the rows that fit are written, the others stay.
  abbrev pub update_where : (A → Bool) → (A → A) → List A → List A
  update_where p f [] = []
  update_where p f (x ∷ xs) = (if p x then f x else x) ∷ update_where p f xs

  -- The `count` of an `updateMany` or of a `count` query.
  abbrev pub count_where : (A → Bool) → List A → ℕ
  count_where p [] = 0
  count_where p (x ∷ xs) = (if p x then 1 else 0) + count_where p xs

  -- An `aggregate` with `_sum`, as 0 on no row.
  abbrev pub sum_where : (A → Bool) → (A → ℕ) → List A → ℕ
  sum_where p f [] = 0
  sum_where p f (x ∷ xs) = (if p x then f x else 0) + sum_where p f xs

  -- `create` puts a row behind the others.
  abbrev pub snoc : List A → A → List A
  snoc xs x = xs ++ x ∷ []

  -- A statement of every row.
  abbrev pub All {κ} : (A → Type κ) → List A → Type κ
  All P [] = Unit
  All P (x ∷ xs) = P x × All P xs

module _ {ℓ} {A : Type ℓ} where
  pub find-snoc :
      (p : A → Bool) (xs : List A) (x : A)
      → find p xs ≡ none
      → find p (snoc xs x) ≡ (if p x then some x else none)
  find-snoc p [] x h = refl
  find-snoc p (y ∷ xs) x h = ground (arith, find-snoc p xs x)

  pub find-snoc-some :
      (p : A → Bool) (xs : List A) (x y : A) → find p xs ≡ some y → find p (snoc xs x) ≡ some y
  find-snoc-some p [] x y h = ground arith
  find-snoc-some p (z ∷ xs) x y h = ground (arith, find-snoc-some p xs x y)

  -- The row that is found passes the test.
  pub find_holds : (p : A → Bool) (xs : List A) (x : A) → find p xs ≡ some x → p x ≡ true
  find_holds p [] x h = ground arith
  find_holds p (y ∷ xs) x h = ground (arith, find_holds p xs x)

  -- The row that is found is in the table.
  pub any-found :
      (p d : A → Bool) (xs : List A) (x : A) → find p xs ≡ some x → d x ≡ true → any d xs ≡ true
  any-found p d [] x h t = ground arith
  any-found p d (y ∷ xs) x h t = ground (arith, any-found p d xs x)

  -- A row that is found satisfies what every row of the table does.
  pub find-All {κ} :
      (P : A → Type κ) (p : A → Bool) (xs : List A) {x : A} → find p xs ≡ some x → All P xs → P x
  find-All P p [] h a = ground arith
  find-All P p (y ∷ xs) {x} h a =
      elim (p y) as (λ b. (if b then some y else find p xs) ≡ some x → P x) [
        | true ↦ λ e. ground arith
        | false ↦ λ e. find-All P p xs e a.1
      ]
        h

  pub count_where-update_where :
      (p : A → Bool) (f : A → A)
      → ((x : A) → p (f x) ≡ false)
      → (xs : List A) → count_where p (update_where p f xs) ≡ 0
  count_where-update_where p f h [] = refl
  count_where-update_where p f h (x ∷ xs) = ground (arith, h x, count_where-update_where p f h xs)

  -- An update that leaves the test alone leaves the count alone.
  pub count_where-update_same :
      (p d : A → Bool) (f : A → A)
      → ((x : A) → p (f x) ≡ p x)
      → (xs : List A) → count_where p (update_where d f xs) ≡ count_where p xs
  count_where-update_same p d f same [] = refl
  count_where-update_same p d f same (x ∷ xs) =
      ground (arith, same x, count_where-update_same p d f same xs)

  pub length-update_where :
      (p : A → Bool) (f : A → A) (xs : List A) → length (update_where p f xs) ≡ length xs
  length-update_where p f [] = refl
  length-update_where p f (x ∷ xs) = ap suc (length-update_where p f xs)

  pub sum_where-snoc :
      (p : A → Bool) (f : A → ℕ) (xs : List A) (x : A)
      → sum_where p f (snoc xs x) ≡ sum_where p f xs + (if p x then f x else 0)
  sum_where-snoc p f [] x = omega arith
  sum_where-snoc p f (y ∷ xs) x = omega (arith, sum_where-snoc p f xs x)

  pub count_where-snoc :
      (p : A → Bool) (xs : List A) (x : A)
      → count_where p (snoc xs x) ≡ count_where p xs + (if p x then 1 else 0)
  count_where-snoc p [] x = omega arith
  count_where-snoc p (y ∷ xs) x = omega (arith, count_where-snoc p xs x)

  -- Every row that a query returns passes its test.
  pub select-All : (p : A → Bool) (xs : List A) → All (λ x. p x ≡ true) (select p xs)
  select-All p [] = tt
  select-All p (x ∷ xs) = elim (Bool-cases (p x)) [
    | inl fits ↦ rw fits (fits, select-All p xs)
    | inr fails ↦ rw fails (select-All p xs)
  ]
