-- ===== src/Base/Actions.antt =====
-- Service calls: a state that is passed on, and an exception as a value. What was written before
-- an exception stays written, unless a transaction rolls it back.
use mathlib.Core.Bool.{Bool, true, false}
use mathlib.Core.Path.{◌≡◌, refl, ap, subst}
use mathlib.Core.Logic.{◌⊎◌, inl, inr}
use mathlib.Core.Option.{Option, none, some}

pub data Result (E A : Type 0) : Type 0 where
  ok : A → Result E A
  err : E → Result E A

pub Result-cases :
    {E A : Type 0} (r : Result E A) → ((e : E) × (r ≡ err e)) ⊎ ((a : A) × (r ≡ ok a))
Result-cases (ok a) = inr (a, refl)
Result-cases (err e) = inl (e, refl)

abbrev pub Action : Type 0 → Type 0 → Type 0 → Type 0
Action S E A = S → Result E A × S

infixl 5 ◌>>=◌ ◌>>◌
abbrev pub ◌>>=◌ : {S E A B : Type 0} → Action S E A → (A → Action S E B) → Action S E B
◌>>=◌ m f s = let (r, s') = m s in elim r [ ok a ↦ f a s' | err e ↦ (err e, s') ]

abbrev pub ◌>>◌ : {S E B : Type 0} → Action S E (Unit {0}) → Action S E B → Action S E B
m >> k = m >>= λ _. k

abbrev pub found_or : {E A : Type 0} → Option A → E → Result E A
found_or none e = err e
found_or (some a) e = ok a

module _ {S E A : Type 0} where
  abbrev pub pure : A → Action S E A
  pure a s = (ok a, s)

  -- `throw`
  abbrev pub throw : E → Action S E A
  throw e s = (err e, s)

  -- A query that throws where it finds no answer.
  abbrev pub reads : (S → Result E A) → Action S E A
  reads f s = (f s, s)

  abbrev pub gets : (S → A) → Action S E A
  gets f s = (ok (f s), s)

  abbrev pub rollback : S → Result E A × S → Result E A × S
  rollback s (ok a, s') = (ok a, s')
  rollback s (err e, s') = (err e, s)

  -- `$transaction`: an exception undoes every write of the body.
  abbrev pub transaction : Action S E A → Action S E A
  transaction m s = rollback s (m s)

  abbrev pub or_throw : Option A → E → Action S E A
  or_throw none e = throw e
  or_throw (some a) e = pure a

module _ {S E : Type 0} where
  abbrev pub modify : (S → S) → Action S E (Unit {0})
  modify f s = (ok tt, f s)

  abbrev pub throw_if : Bool → E → Action S E (Unit {0})
  throw_if true e = throw e
  throw_if false e = pure tt

  -- `catch (error) { …; throw error; }`
  abbrev pub rethrow : {A : Type 0} → (E → S → S) → Result E A × S → Result E A × S
  rethrow f (ok a, s) = (ok a, s)
  rethrow f (err e, s) = (err e, f e s)

-- What a sequence and a transaction answer.
module _ {S E A B : Type 0} (m : Action S E A) (s : S) where
  pub >>=-ok : (f : A → Action S E B) (a : A) (s' : S) → m s ≡ (ok a, s') → (m >>= f) s ≡ f a s'
  >>=-ok f a s' h = ap (λ (out : Result E A × S). ((λ (_ : S). out) >>= f) s) h

  pub >>=-err :
      (f : A → Action S E B) (e : E) (s' : S) → m s ≡ (err e, s') → (m >>= f) s ≡ (err e, s')
  >>=-err f e s' h = ap (λ (out : Result E A × S). ((λ (_ : S). out) >>= f) s) h

module _ {S E A B : Type 0} where
  run_result :
      (out : Result E A × S) (f : A → Action S E B) (b : B) (s'' : S)
      → ((λ (_ : S). out) >>= f) out.1 ≡ (ok b, s'')
      → (a : A) × (s' : S) × (out ≡ (ok a, s')) × (f a s' ≡ (ok b, s''))
  run_result (ok a, s') f b s'' h = (a, s', refl, h)
  run_result (err e, s') f b s'' h = absurd (cc h)

  -- A sequence that succeeds is two calls that do.
  pub >>=-inv :
      (m : Action S E A) (f : A → Action S E B) (s : S) (b : B) (s'' : S)
      → (m >>= f) s ≡ (ok b, s'')
      → (a : A) × (s' : S) × (m s ≡ (ok a, s')) × (f a s' ≡ (ok b, s''))
  >>=-inv m f s b s'' h = run_result (m s) f b s'' h

module _ {S E A : Type 0} where
  rollback-ok :
      (s : S) (out : Result E A × S) (a : A) (s' : S)
      → rollback s out ≡ (ok a, s')
      → out ≡ (ok a, s')
  rollback-ok s (ok a, s') b s'' h = h
  rollback-ok s (err e, s') b s'' h = absurd (cc h)

  -- A transaction that succeeds is its body.
  pub transaction-ok :
      (m : Action S E A) (s : S) (a : A) (s' : S) → transaction m s ≡ (ok a, s') → m s ≡ (ok a, s')
  transaction-ok m s a s' h = rollback-ok s (m s) a s' h

module _ {S E A : Type 0} where
  rollback-answer : (s : S) (out : Result E A × S) → (rollback s out).0 ≡ out.0
  rollback-answer s (ok a, s') = refl
  rollback-answer s (err e, s') = refl

  pub transaction-answer : (m : Action S E A) (s : S) → (transaction m s).0 ≡ (m s).0
  transaction-answer m s = rollback-answer s (m s)

-- What every write keeps, a sequence keeps and a transaction keeps.
module _ {S E : Type 0} (P : S → Type 0) where
  bind_result :
      {A B : Type 0} (r : Result E A) (s : S) (f : A → Action S E B)
      → P s
      → ((a : A) (s : S) → P s → P (f a s).1)
      → P (((λ (_ : S). (r, s)) >>= f) s).1
  bind_result (ok a) s f p k = k a s p
  bind_result (err e) s f p k = p

  pub >>=-keeps :
      {A B : Type 0} (m : Action S E A) (f : A → Action S E B) (s : S)
      → P (m s).1
      → ((a : A) (s : S) → P s → P (f a s).1)
      → P ((m >>= f) s).1
  >>=-keeps m f s p k = bind_result (m s).0 (m s).1 f p k

  rollback_result : {A : Type 0} (r : Result E A) (s s' : S) → P s → P s' → P (rollback s (r, s')).1
  rollback_result (ok a) s s' p p' = p'
  rollback_result (err e) s s' p p' = p

  pub transaction-keeps :
      {A : Type 0} (m : Action S E A) (s : S) → P s → P (m s).1 → P (transaction m s).1
  transaction-keeps m s p p' = rollback_result (m s).0 s (m s).1 p p'

module _ {S E A : Type 0} (P : S → Type 0) where
  pub rethrow-keeps :
      (f : E → S → S) (out : Result E A × S)
      → ((e : E) (s : S) → P s → P (f e s))
      → P out.1
      → P (rethrow f out).1
  rethrow-keeps f (ok a, s) k p = p
  rethrow-keeps f (err e, s) k p = k e s p

-- A call keeps a property of the state, whether or not it throws. The rules follow a `do` block.
pub record Keeps {S E A : Type 0} (P : S → Type 0) (m : Action S E A) : Type 0 where
  pub kept : (s : S) → P s → P (m s).1

module _ {S E A B : Type 0} {P : S → Type 0} where
  pub Keeps-bind :
      {m : Action S E A} {f : A → Action S E B}
      → Keeps P m
      → ((a : A) → Keeps P (f a))
      → Keeps P (m >>= f)
  Keeps-bind {m} {f} k l = record {
    kept = λ s p. >>=-keeps P m f s (k.kept s p) (λ a s' p'. (l a).kept s' p');
  }

-- The same from one state, where what a query has answered is known.
pub record KeepsAt {S E A : Type 0} (P : S → Type 0) (m : Action S E A) (s : S) : Type 0 where
  pub kept_at : P s → P (m s).1

module _ {S E A B : Type 0} {P : S → Type 0} {s : S} where
  pub at_bind :
      {m : Action S E A} {f : A → Action S E B}
      → KeepsAt P m s
      → ((a : A) → Keeps P (f a))
      → KeepsAt P (m >>= f) s
  at_bind {m} {f} k l = record {
    kept_at = λ p. >>=-keeps P m f s (k.kept_at p) (λ a s' p'. (l a).kept s' p');
  }

  -- After a call that leaves the state alone, with what it has answered.
  pub at_read :
      (m : Action S E A) {f : A → Action S E B}
      → (m s).1 ≡ s
      → ((a : A) → (m s).0 ≡ ok a → KeepsAt P (f a) s)
      → KeepsAt P (m >>= f) s
  at_read m {f} same k = record {
    kept_at = λ p. elim (Result-cases (m s).0) [
      | inl (e, refused) ↦ rw (refused, ◌>>=◌, same) p
      | inr (a, answered) ↦ rw (answered, ◌>>=◌, same) ((k a answered).kept_at p)
    ];
  }

-- The test of `throw_if`.
pub throw_if-same : {S E : Type 0} (b : Bool) (e : E) (s : S) → (throw_if b e s).1 ≡ s
throw_if-same true e s = refl
throw_if-same false e s = refl

pub throw_if-passed :
    {S E : Type 0} (b : Bool) (e : E) (s : S) → (throw_if b e s).0 ≡ ok tt → b ≡ false
throw_if-passed true e s h = absurd (cc h)
throw_if-passed false e s h = refl

module _ {S E A : Type 0} {P : S → Type 0} where
  pub Keeps-reads : (r : S → Result E A) → Keeps P (reads r)
  Keeps-reads r = record { kept = λ s p. p }

  pub Keeps-transaction : {m : Action S E A} → Keeps P m → Keeps P (transaction m)
  Keeps-transaction {m} k = record { kept = λ s p. transaction-keeps P m s p (k.kept s p) }

  pub Keeps-pure : (a : A) → Keeps {E = E} P (pure a)
  Keeps-pure a = record { kept = λ s p. p }

  pub Keeps-gets : (f : S → A) → Keeps {E = E} P (gets f)
  Keeps-gets f = record { kept = λ s p. p }

  pub Keeps-or_throw : (o : Option A) (e : E) → Keeps P (or_throw o e)
  Keeps-or_throw none e = record { kept = λ s p. p }
  Keeps-or_throw (some a) e = record { kept = λ s p. p }

module _ {S E : Type 0} {P : S → Type 0} where
  pub Keeps-throw_if : (b : Bool) (e : E) → Keeps P (throw_if {S = S} b e)
  Keeps-throw_if true e = record { kept = λ s p. p }
  Keeps-throw_if false e = record { kept = λ s p. p }

  pub Keeps-modify : (f : S → S) → ((s : S) → P s → P (f s)) → Keeps {E = E} P (modify f)
  Keeps-modify f h = record { kept = h }

module _ {S E A : Type 0} {P : S → Type 0} where
  -- The property after a call that has answered.
  pub after_Keeps :
      {m : Action S E A} (s : S) (a : Result E A) (s' : S) → Keeps P m → m s ≡ (a, s') → P s → P s'
  after_Keeps {m} s a s' k h p = let same : (m s).1 ≡ s' = cc h in subst P same (k.kept s p)

module _ {S E A : Type 0} where
  pub rethrow-ok :
      (f : E → S → S) (out : Result E A × S) (a : A) (s' : S)
      → rethrow f out ≡ (ok a, s')
      → out ≡ (ok a, s')
  rethrow-ok f (ok a, s) b s' h = h
  rethrow-ok f (err e, s) b s' h = absurd (cc h)
