-- ===== src/Base/Rows.antt =====
-- Tests of a whole table, and the rows that decide them.
use Prim.Native.Nat.{◌<◌}
use mathlib.Core.Path.{◌≡◌, refl}
use mathlib.Core.Logic.{◌↔◌, inl, inr}
use mathlib.Core.Bool.{Bool, true}
use mathlib.Core.List.{List, [], ◌∷◌, Memᴰ}
use native.Mathlib.Omega.{arith}
use content_intelligence_bac.Base.Tests.{Bool-cases}
use content_intelligence_bac.Base.Lists.{any, all, count_where}

module _ {ℓ} {A : Type ℓ} (p : A → Bool) where
  any-row : (xs : List A) → any p xs ≡ true → (x : A) × Memᴰ x xs × (p x ≡ true)
  any-row [] h = absurd (cc h)
  any-row (x ∷ xs) h = elim (Bool-cases (p x)) [
    | inl here ↦ (x, Memᴰ.head refl, here)
    | inr later ↦ let (y, m, t) = any-row xs (rw later at h) in (y, Memᴰ.tail m, t)
  ]

  row-any : (xs : List A) (x : A) → Memᴰ x xs → p x ≡ true → any p xs ≡ true
  row-any [] x m t = elim m [ ]
  row-any (y ∷ xs) x (Memᴰ.head e) t = let here : p y ≡ true = rw (← e) t in rw here refl
  row-any (y ∷ xs) x (Memᴰ.tail m) t = let rest = row-any xs x m t in ground arith

  -- A test holds of a row exactly when one of the table's passes it.
  pub any_iff : (xs : List A) → (any p xs ≡ true) ↔ ((x : A) × Memᴰ x xs × (p x ≡ true))
  any_iff xs = (any-row xs, λ w. row-any xs w.0 w.1 w.2)

  all-row : (xs : List A) (x : A) → all p xs ≡ true → Memᴰ x xs → p x ≡ true
  all-row [] x h m = elim m [ ]
  all-row (y ∷ xs) x h (Memᴰ.head e) = rw e (ground arith)
  all-row (y ∷ xs) x h (Memᴰ.tail m) = all-row xs x (ground arith) m

  row-all : (xs : List A) → ((x : A) → Memᴰ x xs → p x ≡ true) → all p xs ≡ true
  row-all [] h = refl
  row-all (y ∷ xs) h =
      let here = h y (Memᴰ.head refl) in
      let rest = row-all xs (λ x m. h x (Memᴰ.tail m)) in ground (arith, here, rest)

  pub all_iff : (xs : List A) → (all p xs ≡ true) ↔ ((x : A) → Memᴰ x xs → p x ≡ true)
  all_iff xs = (λ h x m. all-row xs x h m, row-all xs)

  count-any : (xs : List A) → 0 < count_where p xs → any p xs ≡ true
  count-any [] h = ground arith
  count-any (x ∷ xs) h = ground (arith, count-any xs)

  any-count : (xs : List A) → any p xs ≡ true → 0 < count_where p xs
  any-count [] h = ground arith
  any-count (x ∷ xs) h = ground (arith, any-count xs)

  pub count_where_iff :
      (xs : List A) → (0 < count_where p xs) ↔ ((x : A) × Memᴰ x xs × (p x ≡ true))
  count_where_iff xs =
      (λ h. any-row xs (count-any xs h), λ w. any-count xs (row-any xs w.0 w.1 w.2))
