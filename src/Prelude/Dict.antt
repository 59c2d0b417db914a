-- ===== src/Prelude/Dict.antt =====
-- `std::unordered_map` with integer keys, as an association list. Iteration visits the list's
-- order, which stands for the order, unspecified, of the real container.
use Prim.Native.Nat.{ℕ}
use mathlib.Core.Path.{◌≡◌, refl, sym, ap, subst}
use mathlib.Core.Bool.{Bool, true, false}
use mathlib.Core.Option.{Option, none, some}
use mathlib.Core.Logic.{inl, inr}
use mathlib.Core.List.{List, [], ◌∷◌}
use native.Mathlib.Omega.{arith}
use game_server.Prelude.Tests.{◌==◌, if◌then◌else◌, Option-cases, Bool-cases, ==-cases}

abbrev pub Dict {ℓ} : Type ℓ → Type ℓ
Dict V = List (ℕ × V)

module _ {ℓ} {V : Type ℓ} where
  abbrev pub empty : Dict V
  empty = []

  -- `find`, and `at` with the missing key as `none`.
  unfoldable pub lookup : ℕ → Dict V → Option V
  lookup k [] = none
  lookup k ((j, v) ∷ m) = if j == k then some v else lookup k m

  -- `m[k] = v` and `insert_or_assign`.
  unfoldable pub put : ℕ → V → Dict V → Dict V
  put k v [] = (k, v) ∷ []
  put k v ((j, w) ∷ m) = if j == k then (k, v) ∷ m else (j, w) ∷ put k v m

  unfoldable pub remove : ℕ → Dict V → Dict V
  remove k [] = []
  remove k ((j, v) ∷ m) = let rest = remove k m in if j == k then rest else (j, v) ∷ rest

  abbrev pub is_some : Option V → Bool
  is_some none = false
  is_some (some v) = true

  unfoldable pub contains : ℕ → Dict V → Bool
  contains k m = is_some (lookup k m)

  -- `insert` leaves an entry that is there.
  unfoldable pub insert : ℕ → V → Dict V → Dict V
  insert k v m = if contains k m then m else put k v m

  -- `m[k].field = x` under a test that the key is there.
  unfoldable pub modify : (V → V) → ℕ → Dict V → Dict V
  modify f k m = elim (lookup k m) [ none ↦ m | some v ↦ put k (f v) m ]

  pub lookup-put :
      (k j : ℕ) (v : V) (m : Dict V)
      → lookup j (put k v m) ≡ (if k == j then some v else lookup j m)
  unfolding lookup put
  lookup-put k j v [] = refl
  lookup-put k j v ((i, w) ∷ m) = ground (arith, lookup-put k j v m)

  pub lookup-remove :
      (k j : ℕ) (m : Dict V) → lookup j (remove k m) ≡ (if k == j then none else lookup j m)
  unfolding lookup remove
  lookup-remove k j [] = ground arith
  lookup-remove k j ((i, w) ∷ m) = ground (arith, lookup-remove k j m)

  pub lookup-insert :
      (k j : ℕ) (v : V) (m : Dict V)
      → lookup j (insert k v m)
        ≡ (if k == j then (if contains k m then lookup j m else some v) else lookup j m)
  unfolding insert
  lookup-insert k j v m = ground (arith, lookup-put k j v m)

  abbrev pub over : (V → V) → Option V → Option V
  over f none = none
  over f (some v) = some (f v)

  pub lookup-modify :
      (f : V → V) (k j : ℕ) (m : Dict V)
      → lookup j (modify f k m) ≡ (if k == j then over f (lookup j m) else lookup j m)
  unfolding modify
  lookup-modify f k j m = elim (Option-cases (lookup k m)) [
    | inl e ↦ rw (e, modify) (ground arith)
    | inr (v, e) ↦ rw (e, modify) (ground (arith, lookup-put k j (f v) m))
  ]

  pub contains-eq : (k : ℕ) (m : Dict V) → contains k m ≡ is_some (lookup k m)
  unfolding contains
  contains-eq k m = refl

  pub insert_new :
      (k j : ℕ) (v : V) (m : Dict V)
      → lookup k m ≡ none
      → lookup j (insert k v m) ≡ (if k == j then some v else lookup j m)
  unfolding contains
  insert_new k j v m h = ground (arith, lookup-insert k j v m)

  -- The keys, in the order of iteration.
  unfoldable pub keys : Dict V → List ℕ
  keys [] = []
  keys ((k, v) ∷ m) = k ∷ keys m

  unfoldable pub values : Dict V → List V
  values [] = []
  values ((k, v) ∷ m) = v ∷ values m

-- A predicate of every entry.
abbrev pub Every {ℓ κ} : {V : Type ℓ} → (ℕ → V → Type κ) → Dict V → Type (ℓ ⊔ κ)
Every {V} P m = (k : ℕ) (v : V) → lookup k m ≡ some v → P k v

module _ {ℓ κ} {V : Type ℓ} (P : ℕ → V → Type κ) where
  pub Every-empty : Every P empty
  unfolding lookup
  Every-empty k v e = cc

  pub Every-put : (k : ℕ) (v : V) (m : Dict V) → P k v → Every P m → Every P (put k v m)
  Every-put k v m p h j v' e = elim (==-cases k j) [
    | inl same ↦
        let eq : v ≡ v' = ground (arith, lookup-put k j v m) in
        subst (λ x. P j x) eq (subst (λ i. P i v) same p)
    | inr other ↦ h j v' (ground (arith, lookup-put k j v m))
  ]

  pub Every-remove : (k : ℕ) (m : Dict V) → Every P m → Every P (remove k m)
  Every-remove k m h j v e = h j v (ground (arith, lookup-remove k j m))

  pub Every-insert : (k : ℕ) (v : V) (m : Dict V) → P k v → Every P m → Every P (insert k v m)
  unfolding insert
  Every-insert k v m p h = elim (Bool-cases (contains k m)) [
    | inl old ↦ rw (old, insert) h
    | inr new ↦ rw (new, insert) (Every-put k v m p h)
  ]

  pub Every-modify :
      (f : V → V) (k : ℕ) (m : Dict V)
      → ((v : V) → P k v → P k (f v))
      → Every P m
      → Every P (modify f k m)
  unfolding modify
  Every-modify f k m s h = elim (Option-cases (lookup k m)) [
    | inl e ↦ rw (e, modify) h
    | inr (v, e) ↦ rw (e, modify) (Every-put k (f v) m (s v (h k v e)) h)
  ]

  -- Two changes of one entry, of which only the second restores the predicate.
  pub Every-modify_twice :
      (f g : V → V) (k : ℕ) (m : Dict V)
      → ((v : V) → P k v → P k (g (f v)))
      → Every P m
      → Every P (modify g k (modify f k m))
  Every-modify_twice f g k m s h j v' e = elim (==-cases k j) [
    | inl same ↦
        subst (λ i. P i v') same
          (elim (Option-cases (lookup k m)) [
            | inl absent ↦ cc (
              subst (λ i. lookup i (modify g k (modify f k m)) ≡ some v') (sym same) e,
              lookup-modify_twice f g k m,
              ap (over (λ v. g (f v))) absent,
            )
            | inr (v, there) ↦
                let eq : g (f v) ≡ v' = cc (
                  subst (λ i. lookup i (modify g k (modify f k m)) ≡ some v') (sym same) e,
                  lookup-modify_twice f g k m,
                  ap (over (λ v. g (f v))) there,
                ) in
                subst (λ x. P k x) eq (s v (h k v there))
          ])
    | inr other ↦ h j v' (ground (arith, lookup-modify g k j (modify f k m), lookup-modify f k j m))
  ]
    where
      lookup-modify_twice :
          (f g : V → V) (k : ℕ) (m : Dict V)
          → lookup k (modify g k (modify f k m)) ≡ over (λ v. g (f v)) (lookup k m)
      lookup-modify_twice f g k m =
          ground (arith, lookup-modify g k k (modify f k m), lookup-modify f k k m)
