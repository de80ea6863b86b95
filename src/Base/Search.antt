-- ===== src/Base/Search.antt =====
-- The `for` loop that searches an array and stops at the first hit, and what it finds.
use Prim.Native.Nat.{ℕ, zero, suc, ◌+◌, ◌≤◌, ◌<◌}
use mathlib.Core.Path.{◌≡◌, refl, ap, subst}
use mathlib.Core.Logic.{◌↔◌, inl, inr}
use mathlib.Core.Bool.{Bool, true, false}
use mathlib.Core.Option.{Option, none, some}
use mathlib.Core.List.{List, [], ◌∷◌}
use native.Mathlib.Omega.{arith}
use ip.Base.Tests.{if◌then◌else◌, Bool-cases}
use ip.Base.Lists.{get_elem?, get_or, set, length}

-- The `for` loop of a search through an array that returns at the first hit: `i` is the index of
-- the head of the rest.
unfoldable pub search_from {ℓ} : {A : Type ℓ} → (A → Bool) → ℕ → List A → Option ℕ
search_from test i [] = none
search_from test i (x ∷ xs) = if test x then some i else search_from test (i + 1) xs

-- The element at index `i` has the property, and no element before it has.
pub record IsFirst {ℓ} {A : Type ℓ} (P : A → Type 0) (xs : List A) (i : ℕ) : Type ℓ where
  pub item : A
  pub at : get_elem? xs i ≡ some item
  pub holds : P item
  pub earlier : (j : ℕ) (y : A) → j < i → get_elem? xs j ≡ some y → ¬ P y

module _ {ℓ} {A : Type ℓ} (test : A → Bool) (P : A → Type 0)
    (decides : (x : A) → (test x ≡ true) ↔ P x) where
  not_of_false : (x : A) → test x ≡ false → ¬ P x
  not_of_false x e p = ground (arith, (decides x).1 p)

  IsFirst-cons : (x : A) {xs : List A} {i : ℕ} → ¬ P x → IsFirst P xs i → IsFirst P (x ∷ xs) (suc i)
  IsFirst-cons x {xs} {i} no_x f = record {
    item = f.item;
    at = f.at;
    holds = f.holds;
    earlier = earlier';
  }
    where
      earlier' : (j : ℕ) (y : A) → j < suc i → get_elem? (x ∷ xs) j ≡ some y → ¬ P y
      earlier' zero y lt e p = let same : y ≡ x = cc in no_x (subst P same p)
      earlier' (suc j) y lt e p = f.earlier j y (omega arith) e p

  search_ge : (k m : ℕ) (xs : List A) → search_from test k xs ≡ some m → k ≤ m
  unfolding search_from
  search_ge k m [] h = ground arith
  search_ge k m (x ∷ xs) h = ground (arith, search_ge (k + 1) m xs)

  search_found :
      (k m i : ℕ) (xs : List A) → m ≡ k + i → search_from test k xs ≡ some m → IsFirst P xs i
  unfolding search_from
  search_found k m i [] e h = cc
  search_found k m zero (x ∷ xs) e h = elim (Bool-cases (test x)) [
    | inl yes_x ↦ record {
      item = x;
      at = refl;
      holds = (decides x).0 yes_x;
      earlier = λ j y lt e' p. absurd (omega arith);
    }
    | inr no_x ↦ absurd (omega (arith, search_ge (k + 1) m xs (rw no_x at h)))
  ]
  search_found k m (suc i) (x ∷ xs) e h = elim (Bool-cases (test x)) [
    | inl yes_x ↦ absurd (ground arith)
    | inr no_x ↦
        IsFirst-cons x (not_of_false x no_x)
          (search_found (k + 1) m i xs (omega arith) (rw no_x at h))
  ]

  search_first :
      (k m i : ℕ) (xs : List A) → m ≡ k + i → IsFirst P xs i → search_from test k xs ≡ some m
  unfolding search_from
  search_first k m i [] e f = ground (arith, f.at)
  search_first k m zero (x ∷ xs) e f = rw (hit) (ap some (omega arith))
    where
      hit : test x ≡ true
      hit = let same : f.item ≡ x = cc (f.at) in (decides x).1 (subst P same f.holds)
  search_first k m (suc i) (x ∷ xs) e f = elim (Bool-cases (test x)) [
    | inl yes_x ↦ absurd (f.earlier 0 x (omega arith) refl ((decides x).0 yes_x))
    | inr no_x ↦ rw no_x (
        search_first (k + 1) m i xs (omega arith) (record {
          item = f.item;
          at = f.at;
          holds = f.holds;
          earlier = λ j y lt e' p. f.earlier (suc j) y (omega arith) e' p;
        }))
  ]

  pub search_iff : (i : ℕ) (xs : List A) → (search_from test 0 xs ≡ some i) ↔ IsFirst P xs i
  search_iff i xs = (search_found 0 i i xs (omega arith), search_first 0 i i xs (omega arith))

-- An element written over by one that passes the test just as it did changes no search.
pub search_from-set {ℓ} :
    {A : Type ℓ} (test : A → Bool) (k : ℕ) (xs : List A) (i : ℕ) (v d : A)
    → test v ≡ test (get_or xs i d)
    → i < length xs
    → search_from test k (set xs i v) ≡ search_from test k xs
unfolding search_from
search_from-set test k [] i v d same lt = refl
search_from-set test k (x ∷ xs) zero v d same lt = rw same
search_from-set test k (x ∷ xs) (suc i) v d same lt =
    ap (λ r. if test x then some k else r)
      (search_from-set test (k + 1) xs i v d same (omega arith))
