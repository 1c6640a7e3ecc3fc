-- ===== src/Prelude/Results.antt =====
-- Rust's `Result<A, E>` and the `?` operator.
use mathlib.Core.Path.{◌≡◌, refl, ap}
use mathlib.Core.Logic.{◌⊎◌, inl, inr}
use mathlib.Core.Option.{Option, none, some}

pub data Result {ℓ κ} (A : Type ℓ) (E : Type κ) : Type (ℓ ⊔ κ) where
  ok : A → Result A E
  err : E → Result A E

-- `and_then`, which `?` stands for.
infixl 5 ◌>>=◌
abbrev pub ◌>>=◌ {ℓ κ μ} :
    {E : Type μ} {Before : Type ℓ} {After : Type κ}
    → Result Before E
    → (Before → Result After E)
    → Result After E
err why >>= next = err why
ok value >>= next = next value

-- `?` on a result that carries no value.
infixl 5 ◌>>◌
abbrev pub ◌>>◌ {κ μ} :
    {E : Type μ} {After : Type κ} → Result (Unit {0}) E → Result After E → Result After E
err why >> next = err why
ok _ >> next = next

-- `ok_or`.
abbrev pub ok_or {ℓ μ} : {A : Type ℓ} {E : Type μ} → Option A → E → Result A E
ok_or none e = err e
ok_or (some a) e = ok a

-- `map_err`.
abbrev pub map_err {ℓ κ μ} :
    {A : Type ℓ} {E : Type κ} {F : Type μ} → (E → F) → Result A E → Result A F
map_err f (ok a) = ok a
map_err f (err e) = err (f e)

-- A chain that succeeds succeeded at its first part.
pub >>=-eq-ok {ℓ κ μ} :
    {E : Type μ} {Before : Type ℓ} {After : Type κ} (first : Result Before E)
    (next : Before → Result After E) {last : After}
    → (first >>= next) ≡ ok last
    → (value : Before) × (first ≡ ok value) × (next value ≡ ok last)
>>=-eq-ok (err why) next h = cc
>>=-eq-ok (ok value) next h = (value, refl, h)

-- The same for a proof that uses the parts.
pub >>=-ok_elim {ℓ κ μ ν} :
    {E : Type μ} {Before : Type ℓ} {After : Type κ} {C : Type ν} (first : Result Before E)
    (next : Before → Result After E) {last : After}
    → (first >>= next) ≡ ok last
    → ((value : Before) → first ≡ ok value → next value ≡ ok last → C)
    → C
>>=-ok_elim (err why) next h use_parts = cc
>>=-ok_elim (ok value) next h use_parts = use_parts value refl h

pub Result-cases {ℓ κ} :
    {A : Type ℓ} {E : Type κ} (r : Result A E) → ((a : A) × (r ≡ ok a)) ⊎ ((e : E) × (r ≡ err e))
Result-cases (ok a) = inl (a, refl)
Result-cases (err e) = inr (e, refl)

pub ok_injective {ℓ κ} :
    {A : Type ℓ} {E : Type κ} {a b : A} → ◌≡◌ {A = Result A E} (ok a) (ok b) → a ≡ b
ok_injective h = cc

pub err-ne-ok {ℓ κ} :
    {A : Type ℓ} {E : Type κ} {e : E} {a : A} → ◌≡◌ {A = Result A E} (err e) (ok a) → ⊥
err-ne-ok h = cc

pub ok_or→some {ℓ κ} :
    {A : Type ℓ} {E : Type κ} (o : Option A) (e : E) {a : A} → ok_or o e ≡ ok a → o ≡ some a
ok_or→some none e h = cc
ok_or→some (some b) e h = ap some (ok_injective h)

pub map_err→ok {ℓ κ μ} :
    {A : Type ℓ} {E : Type κ} {F : Type μ} (f : E → F) (r : Result A E) {a : A}
    → map_err f r ≡ ok a
    → r ≡ ok a
map_err→ok f (ok b) h = ap ok (ok_injective h)
map_err→ok f (err e) h = cc

-- A checked step that reports its failure: it passed, and what follows succeeded.
pub map_err->>-ok {ℓ κ μ} :
    {A : Type ℓ} {E : Type κ} {F : Type μ} (f : E → F) (r : Result (Unit {0}) E) (next : Result A F)
    {a : A}
    → (map_err f r >> next) ≡ ok a
    → (r ≡ ok tt) × (next ≡ ok a)
map_err->>-ok f (ok _) next h = (refl, h)
map_err->>-ok f (err e) next h = cc

-- What follows a step that carries no value.
pub >>-ok {κ μ} :
    {E : Type μ} {After : Type κ} (r : Result (Unit {0}) E) (next : Result After E) {a : After}
    → (r >> next) ≡ ok a
    → next ≡ ok a
>>-ok (ok _) next h = h
>>-ok (err e) next h = cc
