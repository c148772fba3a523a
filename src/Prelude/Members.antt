-- ===== src/Prelude/Members.antt =====
-- The members of a list, and those that a test keeps.
use mathlib.Core.List.{List, [], ◌∷◌, ◌++◌, reverse, reverse-cons, append-nil, Memᴰ}
use mathlib.Core.Path.{◌≡◌, refl, ap, ◌∙◌, sym, subst}
use mathlib.Core.Logic.{inl, inr}
use mathlib.Core.Bool.{Bool, true}
use cbc_new.Prelude.Tests.{Bool-cases}
use cbc_new.Prelude.Lists.{All, keep}

module _ {A : Type 0} where
  pub All_get : (P : A → Type 0) (xs : List A) (x : A) → All P xs → Memᴰ x xs → P x
  All_get P (y ∷ xs) x h (Memᴰ.head e) = subst P (sym e) h.0
  All_get P (y ∷ xs) x h (Memᴰ.tail m) = All_get P xs x h.1 m
  All_get P [] x h m = elim m [ ]

  pub mem_of_keep :
      (p : A → Bool) (xs : List A) (x : A) → Memᴰ x (keep p xs) → Memᴰ x xs × (p x ≡ true)
  mem_of_keep p [] x m = elim m [ ]
  mem_of_keep p (y ∷ xs) x m = elim (Bool-cases (p y)) [
    | inr dropped ↦
        let (later, holds) = mem_of_keep p xs x (rw dropped at m) in (Memᴰ.tail later, holds)
    | inl kept ↦ here_or_later (rw kept at m) kept (mem_of_keep p xs x)
  ]
    where
      here_or_later :
          Memᴰ x (y ∷ keep p xs)
          → p y ≡ true
          → (Memᴰ x (keep p xs) → Memᴰ x xs × (p x ≡ true))
          → Memᴰ x (y ∷ xs) × (p x ≡ true)
      here_or_later (Memᴰ.head e) kept rest = (Memᴰ.head e, rw e kept)
      here_or_later (Memᴰ.tail n) kept rest =
          let (later, holds) = rest n in (Memᴰ.tail later, holds)

  pub mem-keep : (p : A → Bool) (xs : List A) (x : A) → Memᴰ x xs → p x ≡ true → Memᴰ x (keep p xs)
  mem-keep p [] x m h = elim m [ ]
  mem-keep p (y ∷ xs) x (Memᴰ.head e) h = let kept : p y ≡ true = rw e at h in rw kept (Memᴰ.head e)
  mem-keep p (y ∷ xs) x (Memᴰ.tail m) h = elim (Bool-cases (p y)) [
    | inl kept ↦ rw kept (Memᴰ.tail (mem-keep p xs x m h))
    | inr dropped ↦ rw dropped (mem-keep p xs x m h)
  ]

  pub keep-append : (p : A → Bool) (xs ys : List A) → keep p (xs ++ ys) ≡ keep p xs ++ keep p ys
  keep-append p [] ys = refl
  keep-append p (x ∷ xs) ys = elim (Bool-cases (p x)) [
    | inl kept ↦ rw kept (ap (λ l. x ∷ l) (keep-append p xs ys))
    | inr dropped ↦ rw dropped (keep-append p xs ys)
  ]

  pub keep-reverse : (p : A → Bool) (xs : List A) → keep p (reverse xs) ≡ reverse (keep p xs)
  keep-reverse p [] = refl
  keep-reverse p (x ∷ xs) = elim (Bool-cases (p x)) [
    | inl kept ↦
        rw (kept, reverse-cons x xs, reverse-cons x (keep p xs))
          (keep-append p (reverse xs) (x ∷ [])
            ∙ rw kept (ap (λ l. l ++ (x ∷ [])) (keep-reverse p xs)))
    | inr dropped ↦
        rw (dropped, reverse-cons x xs)
          (keep-append p (reverse xs) (x ∷ [])
            ∙ rw dropped (append-nil (keep p (reverse xs)) ∙ keep-reverse p xs))
  ]
