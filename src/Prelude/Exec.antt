-- ===== src/Prelude/Exec.antt =====
-- Methods that change shared objects and may fault. What was written before a fault stays
-- written, so the state comes back beside it.
use mathlib.Core.Path.{◌≡◌, refl}
use mathlib.Core.Bool.{Bool, true, false}
use mathlib.Core.List.{List, [], ◌∷◌}
use mathlib.Core.Option.{Option, none, some}
use game_server.Prelude.Tests.{if◌then◌else◌}

-- `out_of_range` is the exception of `at`; the other two are calls through a null pointer.
pub data Fault : Type 0 where
  out_of_range null_session null_room : Fault

pub data Outcome {ℓ} (A : Type ℓ) : Type ℓ where
  done : A → Outcome A
  fault : Fault → Outcome A

abbrev pub Exec {ℓ} : Type ℓ → Type ℓ → Type ℓ
Exec S A = S → Outcome A × S

module _ {ℓ} {S A : Type ℓ} where
  abbrev pub pure : A → Exec S A
  pure a s = (done a, s)

  abbrev pub raise : Fault → Exec S A
  raise e s = (fault e, s)

  abbrev pub gets : (S → A) → Exec S A
  gets f s = (done (f s), s)

  -- A null pointer that is followed.
  abbrev pub need : Fault → Option A → Exec S A
  need e none = raise e
  need e (some a) = pure a

module _ {ℓ} {S A B : Type ℓ} where
  abbrev pub after : Outcome A × S → (A → Exec S B) → Outcome B × S
  after (done a, s) f = f a s
  after (fault e, s) f = (fault e, s)

  infixl 10 ◌>>=◌ ◌>>◌
  abbrev pub ◌>>=◌ : Exec S A → (A → Exec S B) → Exec S B
  ◌>>=◌ m f s = after (m s) f

  abbrev pub ◌>>◌ : Exec S A → Exec S B → Exec S B
  ◌>>◌ m n s = after (m s) (λ _. n)

module _ {S : Type 0} where
  abbrev pub modify : (S → S) → Exec S (Unit {0})
  modify f s = (done tt, f s)

  -- `for (auto x : xs) { f(x); }`
  unfoldable pub for_each : {A : Type 0} → List A → (A → Exec S (Unit {0})) → Exec S (Unit {0})
  for_each [] f = pure tt
  for_each (x ∷ xs) f = f x >> for_each xs f

-- An action that leaves `P` true, also where it faults.
pub record Keeps {ℓ} {S A : Type ℓ} (Good : S → Type ℓ) (action : Exec S A) : Type ℓ where
  pub at : (before : S) → Good before → Good (action before).1

module _ {ℓ} {S A B : Type ℓ} {P : S → Type ℓ} where
  after-Keeps :
      (r : Outcome A × S) (f : A → Exec S B) → P r.1 → ((a : A) → Keeps P (f a)) → P (after r f).1
  after-Keeps (done a, s) f h k = (k a).at s h
  after-Keeps (fault e, s) f h k = h

  pub bind-Keeps :
      (start : Exec S A) (rest : A → Exec S B)
      → Keeps P start
      → ((a : A) → Keeps P (rest a))
      → Keeps P (start >>= rest)
  bind-Keeps start rest before later = record {
    at = λ s h. after-Keeps (start s) rest (before.at s h) later;
  }

  pub then-Keeps : (m : Exec S A) (n : Exec S B) → Keeps P m → Keeps P n → Keeps P (m >> n)
  then-Keeps m n km kn = record { at = λ s h. after-Keeps (m s) (λ _. n) (km.at s h) (λ _. kn) }

  pub bind-gets-Keeps :
      (g : S → A) (f : A → Exec S B) → ((a : A) → Keeps P (f a)) → Keeps P (gets g >>= f)
  bind-gets-Keeps g f kf = record { at = λ s h. (kf (g s)).at s h }

module _ {ℓ} {S A : Type ℓ} {P : S → Type ℓ} where
  pub pure-Keeps : (a : A) → Keeps P (pure a)
  pure-Keeps a = record { at = λ s h. h }

  pub raise-Keeps : (e : Fault) → Keeps P (raise {A = A} e)
  raise-Keeps e = record { at = λ s h. h }

  pub gets-Keeps : (g : S → A) → Keeps P (gets g)
  gets-Keeps g = record { at = λ s h. h }

  pub need-Keeps : (e : Fault) (o : Option A) → Keeps P (need e o)
  need-Keeps e none = record { at = λ s h. h }
  need-Keeps e (some a) = record { at = λ s h. h }

  pub if-Keeps : (b : Bool) (m n : Exec S A) → Keeps P m → Keeps P n → Keeps P (if b then m else n)
  if-Keeps true m n km kn = km
  if-Keeps false m n km kn = kn

module _ {S A : Type 0} {P : S → Type 0} where
  pub for_each-Keeps :
      (xs : List A) (f : A → Exec S (Unit {0}))
      → ((a : A) → Keeps P (f a))
      → Keeps P (for_each xs f)
  unfolding for_each
  for_each-Keeps [] f k = record { at = λ s h. h }
  for_each-Keeps (x ∷ xs) f k = then-Keeps (f x) (for_each xs f) (k x) (for_each-Keeps xs f k)

-- An action that, from a state with `P`, does not fault and leaves `P` true.
pub record Runs {S : Type 0} (P : S → Type 0) (m : Exec S (Unit {0})) : Type 0 where
  pub ends : (s : S) → P s → (m s).0 ≡ done tt
  pub keeps : (s : S) → P s → P (m s).1

pub after-done :
    {S : Type 0} {A : Type 0} (r : Outcome (Unit {0}) × S) (n : Exec S A)
    → r.0 ≡ done tt
    → after r (λ _. n) ≡ n r.1
after-done (done u, s) n e = refl
after-done (fault f, s) n e = cc

module _ {S : Type 0} {P : S → Type 0} where
  pub then-Runs : (m n : Exec S (Unit {0})) → Runs P m → Runs P n → Runs P (m >> n)
  then-Runs m n km kn = record {
    ends = λ s h. rw (after-done (m s) n (km.ends s h)) (kn.ends (m s).1 (km.keeps s h));
    keeps = λ s h. rw (after-done (m s) n (km.ends s h)) (kn.keeps (m s).1 (km.keeps s h));
  }

  pub for_each-Runs :
      {A : Type 0} (xs : List A) (f : A → Exec S (Unit {0}))
      → ((a : A) → Runs P (f a))
      → Runs P (for_each xs f)
  unfolding for_each
  for_each-Runs [] f k = record { ends = λ s h. refl; keeps = λ s h. h }
  for_each-Runs (x ∷ xs) f k = then-Runs (f x) (for_each xs f) (k x) (for_each-Runs xs f k)

-- What an ended sequence says of its parts.
pub after-ended :
    {S : Type 0} {A B : Type 0} (r : Outcome A × S) (f : A → Exec S B) (b : B) (v : S)
    → after r f ≡ (done b, v)
    → (a : A) × (r.0 ≡ done a) × (f a r.1 ≡ (done b, v))
after-ended (done a, s) f b v e = (a, refl, e)
after-ended (fault x, s) f b v e = cc
