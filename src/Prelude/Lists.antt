-- ===== src/Prelude/Lists.antt =====
-- Lists measured and cut by native numbers, and the predicates on lists that the components share.
use Prim.Native.Nat.{ℕ, zero, suc, ◌+◌, ◌-◌, ◌≤◌, min}
use mathlib.Core.Path.{◌≡◌, refl}
use mathlib.Core.Logic.{◌↔◌}
use mathlib.Core.Bool.{Bool, true, false}
use mathlib.Core.List.{List, [], ◌∷◌, ◌++◌}
use native.Mathlib.Omega.{arith}
use game_server.Prelude.Tests.{◌==◌, if◌then◌else◌}

-- A `std::string` or a `std::vector<char>`: its bytes.
abbrev pub Bytes : Type 0
Bytes = List ℕ

module _ {ℓ} {A : Type ℓ} where
  abbrev pub length : List A → ℕ
  length [] = 0
  length (x ∷ xs) = suc (length xs)

  abbrev pub take : ℕ → List A → List A
  take zero xs = []
  take (suc n) [] = []
  take (suc n) (x ∷ xs) = x ∷ take n xs

  abbrev pub drop : ℕ → List A → List A
  drop zero xs = xs
  drop (suc n) [] = []
  drop (suc n) (x ∷ xs) = drop n xs

  abbrev pub null : List A → Bool
  null [] = true
  null (x ∷ xs) = false

  abbrev pub All {κ} : (A → Type κ) → List A → Type κ
  All P [] = Unit
  All P (x ∷ xs) = P x × All P xs

module _ {ℓ} {A : Type ℓ} where
  pub length-append : (xs ys : List A) → length (xs ++ ys) ≡ length xs + length ys
  length-append [] ys = omega arith
  length-append (x ∷ xs) ys = omega (arith, length-append xs ys)

  pub take-append-drop : (n : ℕ) (xs : List A) → take n xs ++ drop n xs ≡ xs
  take-append-drop zero xs = refl
  take-append-drop (suc n) [] = refl
  take-append-drop (suc n) (x ∷ xs) = rw (take-append-drop n xs)

  pub length-take : (n : ℕ) (xs : List A) → length (take n xs) ≡ min n (length xs)
  length-take zero xs = omega arith
  length-take (suc n) [] = omega arith
  length-take (suc n) (x ∷ xs) = omega (arith, length-take n xs)

  pub length-drop : (n : ℕ) (xs : List A) → length (drop n xs) ≡ length xs - n
  length-drop zero xs = omega arith
  length-drop (suc n) [] = omega arith
  length-drop (suc n) (x ∷ xs) = omega (arith, length-drop n xs)

  pub take-append_self : (xs ys : List A) → take (length xs) (xs ++ ys) ≡ xs
  take-append_self [] ys = refl
  take-append_self (x ∷ xs) ys = rw (take-append_self xs ys)

  pub drop-append_self : (xs ys : List A) → drop (length xs) (xs ++ ys) ≡ ys
  drop-append_self [] ys = refl
  drop-append_self (x ∷ xs) ys = drop-append_self xs ys

  pub take_all : (xs : List A) → take (length xs) xs ≡ xs
  take_all [] = refl
  take_all (x ∷ xs) = rw (take_all xs)

  pub take-append_le : (n : ℕ) (xs ys : List A) → n ≤ length xs → take n (xs ++ ys) ≡ take n xs
  take-append_le zero xs ys h = refl
  take-append_le (suc n) [] ys h = absurd (omega arith)
  take-append_le (suc n) (x ∷ xs) ys h = rw (take-append_le n xs ys (omega arith))

  pub drop-append_le :
      (n : ℕ) (xs ys : List A) → n ≤ length xs → drop n (xs ++ ys) ≡ drop n xs ++ ys
  drop-append_le zero xs ys h = refl
  drop-append_le (suc n) [] ys h = absurd (omega arith)
  drop-append_le (suc n) (x ∷ xs) ys h = drop-append_le n xs ys (omega arith)

  module _ {κ} (P : A → Type κ) where
    pub All-append : (xs ys : List A) → All P xs → All P ys → All P (xs ++ ys)
    All-append [] ys hx hy = hy
    All-append (x ∷ xs) ys hx hy = (hx.0, All-append xs ys hx.1 hy)

    pub All-append_right : (xs ys : List A) → All P (xs ++ ys) → All P ys
    All-append_right [] ys h = h
    All-append_right (x ∷ xs) ys h = All-append_right xs ys h.1

    pub All-take : (n : ℕ) (xs : List A) → All P xs → All P (take n xs)
    All-take zero xs h = tt
    All-take (suc n) [] h = tt
    All-take (suc n) (x ∷ xs) h = (h.0, All-take n xs h.1)

    pub All-drop : (n : ℕ) (xs : List A) → All P xs → All P (drop n xs)
    All-drop zero xs h = h
    All-drop (suc n) [] h = tt
    All-drop (suc n) (x ∷ xs) h = All-drop n xs h.1

-- `==` on `std::string`.
unfoldable pub bytes_eq : Bytes → Bytes → Bool
bytes_eq [] [] = true
bytes_eq [] (y ∷ ys) = false
bytes_eq (x ∷ xs) [] = false
bytes_eq (x ∷ xs) (y ∷ ys) = if x == y then bytes_eq xs ys else false

pub bytes_eq_iff : (xs ys : Bytes) → (bytes_eq xs ys ≡ true) ↔ (xs ≡ ys)
unfolding bytes_eq
bytes_eq_iff [] [] = ground arith
bytes_eq_iff [] (y ∷ ys) = ground arith
bytes_eq_iff (x ∷ xs) [] = ground arith
bytes_eq_iff (x ∷ xs) (y ∷ ys) = ground (arith, bytes_eq_iff xs ys)

pub bytes_eq_refl : (xs : Bytes) → bytes_eq xs xs ≡ true
bytes_eq_refl xs = (bytes_eq_iff xs xs).1 refl

-- Membership of a number, as a test.
unfoldable pub member : ℕ → List ℕ → Bool
member a [] = false
member a (x ∷ xs) = if x == a then true else member a xs

-- `it = find(...); erase(it)`: the first occurrence goes.
unfoldable pub erase_first : ℕ → List ℕ → List ℕ
erase_first a [] = []
erase_first a (x ∷ xs) = if x == a then xs else x ∷ erase_first a xs

-- No number stands twice.
abbrev pub Distinct : List ℕ → Type 0
Distinct [] = Unit
Distinct (x ∷ xs) = (member x xs ≡ false) × Distinct xs

pub member-append :
    (a : ℕ) (xs ys : List ℕ) → member a (xs ++ ys) ≡ (if member a xs then true else member a ys)
unfolding member
member-append a [] ys = refl
member-append a (x ∷ xs) ys = ground (arith, member-append a xs ys)

pub member-erase_first_ne :
    (a b : ℕ) (xs : List ℕ) → (a == b) ≡ false → member b (erase_first a xs) ≡ member b xs
unfolding member erase_first
member-erase_first_ne a b [] h = refl
member-erase_first_ne a b (x ∷ xs) h = ground (arith, member-erase_first_ne a b xs h)

pub member-erase_first_self :
    (a : ℕ) (xs : List ℕ) → Distinct xs → member a (erase_first a xs) ≡ false
unfolding member erase_first
member-erase_first_self a [] d = refl
member-erase_first_self a (x ∷ xs) d = ground (arith, member-erase_first_self a xs d.1, d.0)

pub erase_first_absent : (a : ℕ) (xs : List ℕ) → member a xs ≡ false → erase_first a xs ≡ xs
unfolding member erase_first
erase_first_absent a [] h = refl
erase_first_absent a (x ∷ xs) h = ground (arith, erase_first_absent a xs)

pub Distinct-erase_first : (a : ℕ) (xs : List ℕ) → Distinct xs → Distinct (erase_first a xs)
unfolding erase_first
Distinct-erase_first a [] d = tt
Distinct-erase_first a (x ∷ xs) d =
    ground (arith, Distinct-erase_first a xs d.1, member-erase_first_ne a x xs)

pub Distinct-append_one :
    (xs : List ℕ) (a : ℕ) → Distinct xs → member a xs ≡ false → Distinct (xs ++ a ∷ [])
unfolding member
Distinct-append_one [] a d h = (refl, tt)
Distinct-append_one (x ∷ xs) a d h =
    ground (arith, Distinct-append_one xs a d.1, member-append x xs (a ∷ []), d.0)

pub length-erase_first :
    (a : ℕ) (xs : List ℕ) → member a xs ≡ true → length (erase_first a xs) + 1 ≡ length xs
unfolding member erase_first
length-erase_first a [] h = cc
length-erase_first a (x ∷ xs) h = ground (arith, length-erase_first a xs)

-- `std::unordered_set<int>`: `insert` and `erase`.
unfoldable pub set_insert : ℕ → List ℕ → List ℕ
set_insert a s = if member a s then s else a ∷ s

unfoldable pub set_erase : ℕ → List ℕ → List ℕ
set_erase a [] = []
set_erase a (x ∷ xs) = let rest = set_erase a xs in if x == a then rest else x ∷ rest

pub member-set_insert :
    (a b : ℕ) (s : List ℕ) → member b (set_insert a s) ≡ (if a == b then true else member b s)
unfolding member set_insert
member-set_insert a b s = ground arith

pub member-set_erase :
    (a b : ℕ) (s : List ℕ) → member b (set_erase a s) ≡ (if a == b then false else member b s)
unfolding member set_erase
member-set_erase a b [] = ground arith
member-set_erase a b (x ∷ xs) = ground (arith, member-set_erase a b xs)

pub member-append_one :
    (a b : ℕ) (xs : List ℕ) → member b (xs ++ a ∷ []) ≡ (if a == b then true else member b xs)
unfolding member
member-append_one a b [] = refl
member-append_one a b (x ∷ xs) = ground (arith, member-append_one a b xs)

-- Taking a list's front out of the set, one by one.
unfoldable pub set_erase_all : List ℕ → List ℕ → List ℕ
set_erase_all [] s = s
set_erase_all (a ∷ xs) s = set_erase_all xs (set_erase a s)

pub member-set_erase_all :
    (xs : List ℕ) (b : ℕ) (s : List ℕ)
    → member b (set_erase_all xs s) ≡ (if member b xs then false else member b s)
unfolding member set_erase_all
member-set_erase_all [] b s = refl
member-set_erase_all (a ∷ xs) b s =
    ground (arith, member-set_erase_all xs b (set_erase a s), member-set_erase a b s)

-- A front of a list without repeats shares nothing with the rest.
pub member-take-drop :
    (n b : ℕ) (xs : List ℕ)
    → Distinct xs
    → (if member b (take n xs) then false else member b xs) ≡ member b (drop n xs)
unfolding member
member-take-drop zero b xs d = refl
member-take-drop (suc n) b [] d = refl
member-take-drop (suc n) b (x ∷ xs) d =
    ground (arith, member-take-drop n b xs d.1, member-drop n b xs, d.0)
  where
    member-drop : (n b : ℕ) (xs : List ℕ) → member b xs ≡ false → member b (drop n xs) ≡ false
    member-drop zero b xs h = h
    member-drop (suc n) b [] h = refl
    member-drop (suc n) b (x ∷ xs) h = member-drop n b xs (ground arith)

pub Distinct-drop : (n : ℕ) (xs : List ℕ) → Distinct xs → Distinct (drop n xs)
Distinct-drop zero xs d = d
Distinct-drop (suc n) [] d = tt
Distinct-drop (suc n) (x ∷ xs) d = Distinct-drop n xs d.1
