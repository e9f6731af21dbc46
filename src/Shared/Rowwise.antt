-- ===== src/Shared/Rowwise.antt =====
-- Tables related row by row: what an update makes of each row of a list.
use mathlib.Core.Path.{◌≡◌}
use mathlib.Core.Logic.{◌⊎◌, inl, inr}
use mathlib.Core.Bool.{Bool}
use mathlib.Core.List.{List, [], ◌∷◌}
use soraban.Shared.Tests.{if◌then◌else◌}
use soraban.Shared.Lists.{update_where, All}

abbrev pub updated {ℓ} : {A : Type ℓ} → (A → Bool) → (A → A) → A → A
updated test f x = if test x then f x else x

module _ {A : Type 0} where
  -- The lists have the same length, and their elements are related one by one.
  abbrev pub Related : (A → A → Type 0) → List A → List A → Type 0
  Related R [] [] = Unit
  Related R (x ∷ xs) (y ∷ ys) = R x y × Related R xs ys
  Related R [] (y ∷ ys) = ⊥
  Related R (x ∷ xs) [] = ⊥

  abbrev pub In : A → List A → Type 0
  In x [] = ⊥
  In x (y ∷ ys) = (x ≡ y) ⊎ In x ys

  pub Related-refl : (R : A → A → Type 0) → ((x : A) → R x x) → (xs : List A) → Related R xs xs
  Related-refl R h [] = tt
  Related-refl R h (x ∷ xs) = (h x, Related-refl R h xs)

  pub Related-update :
      (R : A → A → Type 0) (test : A → Bool) (f : A → A) (xs : List A)
      → All (λ x. R x (updated test f x)) xs
      → Related R xs (update_where test f xs)
  Related-update R test f [] h = tt
  Related-update R test f (x ∷ xs) h = (h.0, Related-update R test f xs h.1)

  pub Related-update_twice :
      (R : A → A → Type 0) (test test' : A → Bool) (f f' : A → A) (xs : List A)
      → All (λ x. R x (updated test' f' (updated test f x))) xs
      → Related R xs (update_where test' f' (update_where test f xs))
  Related-update_twice R test test' f f' [] h = tt
  Related-update_twice R test test' f f' (x ∷ xs) h =
      (h.0, Related-update_twice R test test' f f' xs h.1)

  pub Related-weaken :
      (R : A → A → Type 0) (S : A → A → Type 0)
      → ((x y : A) → R x y → S x y)
      → (xs ys : List A) → Related R xs ys
      → Related S xs ys
  Related-weaken R S h [] [] r = tt
  Related-weaken R S h (x ∷ xs) (y ∷ ys) r = (h x y r.0, Related-weaken R S h xs ys r.1)
  Related-weaken R S h [] (y ∷ ys) r = absurd r
  Related-weaken R S h (x ∷ xs) [] r = absurd r

  pub Related-trans :
      (R : A → A → Type 0)
      → ((x y z : A) → R x y → R y z → R x z)
      → (xs ys zs : List A) → Related R xs ys
      → Related R ys zs
      → Related R xs zs
  Related-trans R h [] [] [] r s = tt
  Related-trans R h (x ∷ xs) (y ∷ ys) (z ∷ zs) r s =
      (h x y z r.0 s.0, Related-trans R h xs ys zs r.1 s.1)
  Related-trans R h [] [] (z ∷ zs) r s = absurd s
  Related-trans R h [] (y ∷ ys) zs r s = absurd r
  Related-trans R h (x ∷ xs) [] zs r s = absurd r
  Related-trans R h (x ∷ xs) (y ∷ ys) [] r s = absurd s

  pub All-Related :
      (R : A → A → Type 0) (P : A → Type 0)
      → ((x y : A) → R x y → P x → P y)
      → (xs ys : List A) → Related R xs ys
      → All P xs
      → All P ys
  All-Related R P h [] [] r p = tt
  All-Related R P h (x ∷ xs) (y ∷ ys) r p = (h x y r.0 p.0, All-Related R P h xs ys r.1 p.1)
  All-Related R P h [] (y ∷ ys) r p = absurd r
  All-Related R P h (x ∷ xs) [] r p = absurd r

  pub All-every : (P : A → Type 0) → ((x : A) → P x) → (xs : List A) → All P xs
  All-every P h [] = tt
  All-every P h (x ∷ xs) = (h x, All-every P h xs)

  pub All-weaken :
      (P : A → Type 0) (Q : A → Type 0)
      → ((x : A) → P x → Q x)
      → (xs : List A) → All P xs
      → All Q xs
  All-weaken P Q h [] p = tt
  All-weaken P Q h (x ∷ xs) p = (h x p.0, All-weaken P Q h xs p.1)

  pub All-In : (P : A → Type 0) (x : A) (xs : List A) → All P xs → In x xs → P x
  All-In P x [] p i = absurd i
  All-In P x (y ∷ ys) p (inl e) = rw e p.0
  All-In P x (y ∷ ys) p (inr i) = All-In P x ys p.1 i
