-- ===== src/Prelude/Members.antt =====
-- Membership in the lists of the other modules.
use mathlib.Core.List.{Memᴰ, List, [], ◌∷◌, ◌++◌}
use mathlib.Core.Path.{◌≡◌, refl, ap, ◌∙◌}
use mathlib.Core.Logic.{inl, inr}
use mathlib.Core.Bool.{Bool, true, false}
use wallet.Prelude.Tests.{if◌then◌else◌, Bool-cases}
use wallet.Prelude.Lists.{keep}

pub Memᴰ-left {ℓ} : {A : Type ℓ} (x : A) (xs ys : List A) → Memᴰ x xs → Memᴰ x (xs ++ ys)
Memᴰ-left x [] ys m = elim m [ ]
Memᴰ-left x (y ∷ xs) ys (Memᴰ.head e) = Memᴰ.head e
Memᴰ-left x (y ∷ xs) ys (Memᴰ.tail m) = Memᴰ.tail (Memᴰ-left x xs ys m)

pub Memᴰ-right {ℓ} : {A : Type ℓ} (x : A) (xs ys : List A) → Memᴰ x ys → Memᴰ x (xs ++ ys)
Memᴰ-right x [] ys m = m
Memᴰ-right x (y ∷ xs) ys m = Memᴰ.tail (Memᴰ-right x xs ys m)

-- What is kept was there and passes the test.
pub keep-Memᴰ {ℓ} :
    {A : Type ℓ} (test : A → Bool) (x : A) (xs : List A)
    → Memᴰ x (keep test xs)
    → Memᴰ x xs × (test x ≡ true)
keep-Memᴰ test x [] m = elim m [ ]
keep-Memᴰ test x (y ∷ xs) m = go (keep-Memᴰ test x xs) (test y) refl m
  where
    go :
        (Memᴰ x (keep test xs) → Memᴰ x xs × (test x ≡ true))
        → (b : Bool) → test y ≡ b
        → Memᴰ x (if b then y ∷ keep test xs else keep test xs)
        → Memᴰ x (y ∷ xs) × (test x ≡ true)
    go rest true e (Memᴰ.head h) = (Memᴰ.head h, ap test h ∙ e)
    go rest true e (Memᴰ.tail m) = let (later, t) = rest m in (Memᴰ.tail later, t)
    go rest false e m = let (later, t) = rest m in (Memᴰ.tail later, t)

-- Where nothing is kept, nothing passes the test.
pub keep-none {ℓ} :
    {A : Type ℓ} (test : A → Bool) (x : A) (xs : List A)
    → keep test xs ≡ []
    → Memᴰ x xs
    → test x ≡ false
keep-none test x [] e m = elim m [ ]
keep-none test x (y ∷ xs) e (Memᴰ.head h) = elim (Bool-cases (test y)) [
  | inl t ↦ absurd (cc)
  | inr f ↦ ap test h ∙ f
]
keep-none test x (y ∷ xs) e (Memᴰ.tail m) =
    let rest = keep-none test x xs in
    elim (Bool-cases (test y)) [ inl t ↦ absurd (cc) | inr f ↦ rest (cc) m ]
