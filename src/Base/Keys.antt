-- ===== src/Base/Keys.antt =====
-- Tables with a unique number for each row: an update by that number changes one row, and what a sum
-- or a search finds afterwards.
use Prim.Native.Nat.{ℕ, ◌+◌, ◌<◌, ◌≤◌}
use mathlib.Core.Path.{◌≡◌, refl}
use mathlib.Core.Logic.{◌≢◌, inl, inr}
use mathlib.Core.Bool.{Bool, true, false, ◌&&◌}
use mathlib.Core.Option.{Option, none, some}
use mathlib.Core.List.{List, [], ◌∷◌}
use native.Mathlib.Omega.{arith}
use content_intelligence_bac.Base.Tests.{◌==◌, if◌then◌else◌, Bool-cases, ==_iff}
use content_intelligence_bac.Base.Lists.{
  All, find, find-All, update_where, sum_where, count_where, snoc,
}

-- `o` with the row that it holds rewritten where the test says so.
abbrev pub rewrite_found {ℓ} : {A : Type ℓ} → (A → Bool) → (A → A) → Option A → Option A
rewrite_found d h none = none
rewrite_found d h (some x) = some (if d x then h x else x)

module _ {ℓ} {A : Type ℓ} (key : A → ℕ) where
  -- No two rows have one key.
  abbrev pub Distinct : List A → Type 0
  Distinct [] = Unit
  Distinct (x ∷ xs) = All (λ y. key y ≢ key x) xs × Distinct xs

  -- Every key is below the next one that the database will give.
  abbrev pub Below : ℕ → List A → Type 0
  Below n xs = All (λ x. key x < n) xs

  pub Below-mono : (m n : ℕ) (xs : List A) → m ≤ n → Below m xs → Below n xs
  Below-mono m n [] h b = tt
  Below-mono m n (x ∷ xs) h b = (omega arith, Below-mono m n xs h b.1)

  pub Below-snoc : (n : ℕ) (xs : List A) (x : A) → Below n xs → key x < n → Below n (snoc xs x)
  Below-snoc n [] x b h = (h, tt)
  Below-snoc n (y ∷ xs) x b h = (b.0, Below-snoc n xs x b.1 h)

  All-ne-snoc :
      (k : ℕ) (xs : List A) (x : A)
      → All (λ y. key y ≢ k) xs
      → key x ≢ k
      → All (λ y. key y ≢ k) (snoc xs x)
  All-ne-snoc k [] x a h = (h, tt)
  All-ne-snoc k (y ∷ xs) x a h = (a.0, All-ne-snoc k xs x a.1 h)

  pub Distinct-snoc :
      (n : ℕ) (xs : List A) (x : A) → Distinct xs → Below n xs → n ≤ key x → Distinct (snoc xs x)
  Distinct-snoc n [] x d b h = (tt, tt)
  Distinct-snoc n (y ∷ xs) x d b h =
      (All-ne-snoc (key y) xs x d.0 (λ e. absurd (omega arith)), Distinct-snoc n xs x d.1 b.1 h)

  module _ (d : A → Bool) (h : A → A) (same : (x : A) → key (h x) ≡ key x) where
    All-ne-update_where :
        (k : ℕ) (xs : List A) → All (λ y. key y ≢ k) xs → All (λ y. key y ≢ k) (update_where d h xs)
    All-ne-update_where k [] a = tt
    All-ne-update_where k (x ∷ xs) a = (ground (arith, same x), All-ne-update_where k xs a.1)

    pub Below-update_where : (n : ℕ) (xs : List A) → Below n xs → Below n (update_where d h xs)
    Below-update_where n [] b = tt
    Below-update_where n (x ∷ xs) b = (ground (arith, same x), Below-update_where n xs b.1)

    pub Distinct-update_where : (xs : List A) → Distinct xs → Distinct (update_where d h xs)
    Distinct-update_where [] a = tt
    Distinct-update_where (x ∷ xs) a = (
      elim (Bool-cases (d x)) [
        | inl hit ↦ rw (hit, same x) (All-ne-update_where (key x) xs a.0)
        | inr miss ↦ rw miss (All-ne-update_where (key x) xs a.0)
      ],
      Distinct-update_where xs a.1,
    )

  -- A number that no row has is not found, and an update by it changes nothing.
  pub find-absent :
      (k : ℕ) (xs : List A) → All (λ y. key y ≢ k) xs → find (λ x. key x == k) xs ≡ none
  find-absent k [] a = refl
  find-absent k (x ∷ xs) a = ground (arith, find-absent k xs a.1)

  pub sum_where-absent :
      (k : ℕ) (g : A → ℕ) (xs : List A)
      → All (λ y. key y ≢ k) xs
      → sum_where (λ x. key x == k) g xs ≡ 0
  sum_where-absent k g [] a = refl
  sum_where-absent k g (x ∷ xs) a = ground (arith, sum_where-absent k g xs a.1)

  pub All-ne_of_Below : (n : ℕ) (xs : List A) → Below n xs → All (λ y. key y ≢ n) xs
  All-ne_of_Below n [] b = tt
  All-ne_of_Below n (x ∷ xs) b = (omega arith, All-ne_of_Below n xs b.1)

  sum_where-update_absent :
      (k : ℕ) (h : A → A) (p : A → Bool) (g : A → ℕ) (xs : List A)
      → All (λ y. key y ≢ k) xs
      → sum_where p g (update_where (λ x. key x == k) h xs) ≡ sum_where p g xs
  sum_where-update_absent k h p g [] a = refl
  sum_where-update_absent k h p g (x ∷ xs) a =
      ground (arith, sum_where-update_absent k h p g xs a.1)

  -- The row at the head, if its number is the one that is searched.
  found_here :
      (k : ℕ) (x : A) (xs : List A) (r : A)
      → (key x == k) ≡ true
      → find (λ y. key y == k) (x ∷ xs) ≡ some r
      → x ≡ r
  found_here k x xs r here f = cc (rw here at f)

  absent_later :
      (k : ℕ) (x : A) (xs : List A)
      → (key x == k) ≡ true
      → All (λ y. key y ≢ key x) xs
      → All (λ y. key y ≢ k) xs
  absent_later k x xs here a = let e : k ≡ key x = ground arith in rw e a

  -- The sum over the row's own number is that row's.
  pub sum_where-found :
      (k : ℕ) (g : A → ℕ) (xs : List A) (r : A)
      → Distinct xs
      → find (λ x. key x == k) xs ≡ some r
      → sum_where (λ x. key x == k) g xs ≡ g r
  sum_where-found k g [] r d f = absurd (ground arith)
  sum_where-found k g (x ∷ xs) r d f = elim (Bool-cases (key x == k)) [
    | inl here ↦ rw here (
        rw (sum_where-absent k g xs (absent_later k x xs here d.0), found_here k x xs r here f)
          (omega arith))
    | inr later ↦ rw later (omega (arith, sum_where-found k g xs r d.1 (rw later at f)))
  ]

  -- A sum after one row was rewritten: the row's old share goes, its new share comes.
  pub sum_where-update_found :
      (k : ℕ) (h : A → A) (p : A → Bool) (g : A → ℕ) (xs : List A) (r : A)
      → Distinct xs
      → find (λ x. key x == k) xs ≡ some r
      → sum_where p g (update_where (λ x. key x == k) h xs) + (if p r then g r else 0)
        ≡ sum_where p g xs + (if p (h r) then g (h r) else 0)
  sum_where-update_found k h p g [] r d f = absurd (ground arith)
  sum_where-update_found k h p g (x ∷ xs) r d f = elim (Bool-cases (key x == k)) [
    | inl here ↦ rw here (
        rw
          (
            sum_where-update_absent k h p g xs (absent_later k x xs here d.0),
            found_here k x xs r here f,
          )
          (omega arith))
    | inr later ↦ rw later (omega (arith, sum_where-update_found k h p g xs r d.1 (rw later at f)))
  ]

  found_ne :
      (p : A → Bool) (xs : List A) (r : A) (k : ℕ)
      → All (λ y. key y ≢ k) xs
      → find p xs ≡ some r
      → key r ≢ k
  found_ne p xs r k a f = find-All (λ y. key y ≢ k) p xs f a

  -- A row that any test finds is the row of its number.
  pub find-by_key :
      (p : A → Bool) (xs : List A) (r : A)
      → Distinct xs
      → find p xs ≡ some r
      → find (λ x. key x == key r) xs ≡ some r
  find-by_key p [] r d f = absurd (ground arith)
  find-by_key p (x ∷ xs) r d f = elim (Bool-cases (p x)) [
    | inl here ↦ let e : x ≡ r = cc (rw here at f) in rw (e, (==_iff (key r) (key r)).1 refl)
    | inr later ↦
        let found = rw later at f in
        let other : (key x == key r) ≡ false = ground (arith, found_ne p xs r (key x) d.0 found) in
        rw other (find-by_key p xs r d.1 found)
  ]

-- An update or a count by a number and a further test, over a table with unique numbers.
module _ {ℓ} {A : Type ℓ} (key : A → ℕ) (k : ℕ) (q : A → Bool) where
  abbrev is_both : A → Bool
  is_both x = (key x == k) && q x

  count_both-absent : (xs : List A) → All (λ y. key y ≢ k) xs → count_where is_both xs ≡ 0
  count_both-absent [] a = refl
  count_both-absent (x ∷ xs) a = ground (arith, count_both-absent xs a.1)

  pub count_both-missing :
      (xs : List A) → find (λ x. key x == k) xs ≡ none → count_where is_both xs ≡ 0
  count_both-missing [] f = refl
  count_both-missing (x ∷ xs) f = ground (arith, count_both-missing xs)

  pub count_both-found :
      (xs : List A) (r : A)
      → Distinct key xs
      → find (λ x. key x == k) xs ≡ some r
      → count_where is_both xs ≡ (if q r then 1 else 0)
  count_both-found [] r d f = absurd (ground arith)
  count_both-found (x ∷ xs) r d f = elim (Bool-cases (key x == k)) [
    | inl here ↦
        let e : x ≡ r = cc (rw here at f) in
        let a : All (λ y. key y ≢ k) xs = let k_is : k ≡ key x = ground arith in rw k_is d.0 in
        rw here (rw (count_both-absent xs a, e) (omega arith))
    | inr later ↦ rw later (omega (arith, count_both-found xs r d.1 (rw later at f)))
  ]

  update_both-absent :
      (h : A → A) (xs : List A)
      → All (λ y. key y ≢ k) xs
      → update_where is_both h xs ≡ update_where (λ x. key x == k) h xs
  update_both-absent h [] a = refl
  update_both-absent h (x ∷ xs) a = ground (arith, update_both-absent h xs a.1)

  pub update_both-found :
      (h : A → A) (xs : List A) (r : A)
      → Distinct key xs
      → find (λ x. key x == k) xs ≡ some r
      → q r ≡ true
      → update_where is_both h xs ≡ update_where (λ x. key x == k) h xs
  update_both-found h [] r d f t = absurd (ground arith)
  update_both-found h (x ∷ xs) r d f t = elim (Bool-cases (key x == k)) [
    | inl here ↦
        let e : x ≡ r = cc (rw here at f) in
        let a : All (λ y. key y ≢ k) xs = let k_is : k ≡ key x = ground arith in rw k_is d.0 in
        rw here (rw (update_both-absent h xs a, e, t))
    | inr later ↦ rw later (rw (update_both-found h xs r d.1 (rw later at f) t))
  ]

module _ {ℓ} {A : Type ℓ} where
  -- A count is a sum of ones.
  pub count_where-eq-sum_where :
      (p : A → Bool) (xs : List A) → count_where p xs ≡ sum_where p (λ x. 1) xs
  count_where-eq-sum_where p [] = refl
  count_where-eq-sum_where p (x ∷ xs) = omega (arith, count_where-eq-sum_where p xs)

module _ {ℓ} {A : Type ℓ} where
  -- A search by what an update leaves alone finds the same row, rewritten.
  pub find-update_where :
      (p d : A → Bool) (h : A → A)
      → ((x : A) → p (h x) ≡ p x)
      → (xs : List A) → find p (update_where d h xs) ≡ rewrite_found d h (find p xs)
  find-update_where p d h same [] = refl
  find-update_where p d h same (x ∷ xs) = ground (arith, same x, find-update_where p d h same xs)
