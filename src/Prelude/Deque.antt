-- ===== src/Prelude/Deque.antt =====
-- A std::deque as a list from its front to its back, rings of slots that two deques share, and
-- what a ring that drops its oldest item keeps.
use Prim.Native.Nat.{ℕ, zero, suc, ◌≤◌, ◌<◌}
use mathlib.Core.Path.{◌≡◌, refl, sym, ap, ◌∙◌}
use mathlib.Core.Logic.{◌≢◌}
use mathlib.Core.List.{List, [], ◌∷◌, ◌++◌}
use mathlib.Core.Option.{Option, none, some}
use native.Mathlib.Omega.{arith}
use acq400_xrm.Prelude.Lists.{length, take}

module _ {ℓ} {A : Type ℓ} where
  -- back() and pop_back(), together.
  unfoldable pub pop_back : List A → Option (List A × A)
  pop_back [] = none
  pop_back (x ∷ []) = some ([], x)
  pop_back (x ∷ y ∷ ys) = elim (pop_back (y ∷ ys)) [ none ↦ none | some r ↦ some (x ∷ r.0, r.1) ]

  pub pop_back_snoc :
      (x : A) (xs : List A)
      → (ys : List A) × (y : A) × (pop_back (x ∷ xs) ≡ some (ys, y)) × (x ∷ xs ≡ ys ++ y ∷ [])
  unfolding pop_back
  pop_back_snoc x [] = ([], x, refl, refl)
  pop_back_snoc x (z ∷ zs) =
      let r = pop_back_snoc z zs in (x ∷ r.0, r.1, rw (r.2) refl, ap (λ t. x ∷ t) r.3)

  take_append : (n : ℕ) (xs ys : List A) → length xs ≡ n → take n (xs ++ ys) ≡ xs
  take_append zero [] ys e = refl
  take_append zero (x ∷ xs) ys e = absurd (omega arith)
  take_append (suc n) [] ys e = absurd (omega arith)
  take_append (suc n) (x ∷ xs) ys e = ap (λ t. x ∷ t) (take_append n xs ys (omega arith))

  take-take : (n : ℕ) (h : List A) → take n (take (suc n) h) ≡ take n h
  take-take zero h = refl
  take-take (suc n) [] = refl
  take-take (suc n) (x ∷ h) = ap (λ t. x ∷ t) (take-take n h)

  -- A ring that is full drops its oldest item, and one that is not keeps all.
  pub take_init :
      (n : ℕ) (h xs : List A) (x : A)
      → xs ++ x ∷ [] ≡ take (suc n) h
      → length xs ≡ n
      → xs ≡ take n h
  take_init n h xs x e l = sym (take_append n xs (x ∷ []) l) ∙ ap (λ t. take n t) e ∙ take-take n h

  pub take_more : (n : ℕ) (h : List A) → length (take (suc n) h) ≤ n → take (suc n) h ≡ take n h
  take_more zero [] b = refl
  take_more (suc n) [] b = refl
  take_more zero (x ∷ h) b = absurd (omega arith)
  take_more (suc n) (x ∷ h) b = ap (λ t. x ∷ t) (take_more n h (omega arith))

-- x is none of the items.
abbrev pub NotIn : ℕ → List ℕ → Type 0
NotIn x [] = Unit {0}
NotIn x (y ∷ ys) = (x ≢ y) × NotIn x ys

abbrev pub Distinct : List ℕ → Type 0
Distinct [] = Unit {0}
Distinct (x ∷ xs) = NotIn x xs × Distinct xs

abbrev pub AllBelow : ℕ → List ℕ → Type 0
AllBelow n [] = Unit {0}
AllBelow n (x ∷ xs) = (x < n) × AllBelow n xs

pub NotIn-join : (b : ℕ) (s t : List ℕ) → NotIn b s → NotIn b t → NotIn b (s ++ t)
NotIn-join b [] t h k = k
NotIn-join b (c ∷ s) t h k = (h.0, NotIn-join b s t h.1 k)

pub NotIn-append : (x : ℕ) (xs ys : List ℕ) → NotIn x (xs ++ ys) → NotIn x xs
NotIn-append x [] ys h = tt
NotIn-append x (z ∷ zs) ys h = (h.0, NotIn-append x zs ys h.1)

pub NotIn-move : (x y : ℕ) (xs ys : List ℕ) → NotIn x (xs ++ y ∷ ys) → (x ≢ y) × NotIn x (xs ++ ys)
NotIn-move x y [] ys h = h
NotIn-move x y (z ∷ zs) ys h = let r = NotIn-move x y zs ys h.1 in (r.0, (h.0, r.1))

-- A slot moves from behind others to the front.
pub Distinct-move : (y : ℕ) (xs ys : List ℕ) → Distinct (xs ++ y ∷ ys) → Distinct (y ∷ (xs ++ ys))
Distinct-move y [] ys h = h
Distinct-move y (x ∷ xs) ys h =
    let r = NotIn-move x y xs ys h.0 in
    let rest = Distinct-move y xs ys h.1 in (((λ e. r.0 (sym e)), rest.0), (r.1, rest.1))

pub AllBelow-move :
    (n y : ℕ) (xs ys : List ℕ) → AllBelow n (xs ++ y ∷ ys) → AllBelow n (y ∷ (xs ++ ys))
AllBelow-move n y [] ys h = h
AllBelow-move n y (x ∷ xs) ys h = let rest = AllBelow-move n y xs ys h.1 in (rest.0, (h.0, rest.1))
