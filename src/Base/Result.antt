-- ===== src/Base/Result.antt =====
-- Rust's `Result`, with `?` as the bind of a `do` block.
use pureshade_os.Base.{◌≡◌, refl, ap, Bool, true, false, Option, none, some, ◌⊎◌, ◌≢◌, inl, inr}

pub data Result {ℓ κ} (E : Type ℓ) (A : Type κ) : Type (ℓ ⊔ κ) where
  ok : A → Result E A
  err : E → Result E A

infixl 5 ◌>>=◌ ◌>>◌
abbrev pub ◌>>=◌ {ℓ κ μ} :
    {E : Type ℓ} {A : Type κ} {B : Type μ} → Result E A → (A → Result E B) → Result E B
ok a >>= f = f a
err e >>= f = err e

abbrev pub ◌>>◌ {ℓ κ} : {E : Type ℓ} {B : Type κ} → Result E (Unit {0}) → Result E B → Result E B
m >> k = m >>= λ _. k

-- An early return of `e` unless the test holds.
abbrev pub ensure {ℓ} : {E : Type ℓ} → Bool → E → Result E (Unit {0})
ensure true e = ok tt
ensure false e = err e

abbrev pub ok_or {ℓ κ} : {E : Type ℓ} {A : Type κ} → Option A → E → Result E A
ok_or none e = err e
ok_or (some a) e = ok a

pub Result-cases {ℓ κ} :
    {E : Type ℓ} {A : Type κ} (r : Result E A) → ((a : A) × (r ≡ ok a)) ⊎ ((e : E) × (r ≡ err e))
Result-cases (ok a) = inl (a, refl)
Result-cases (err e) = inr (e, refl)

-- A chain that succeeds has succeeded at each step.
pub bind_ok {ℓ κ μ} :
    {E : Type ℓ} {A : Type κ} {B : Type μ} (r : Result E A) (f : A → Result E B) (b : B)
    → (r >>= f) ≡ ok b
    → (a : A) × (r ≡ ok a) × (f a ≡ ok b)
bind_ok (ok a) f b h = (a, refl, h)
bind_ok (err e) f b h = cc

pub ok_or_ok {ℓ κ} :
    {E : Type ℓ} {A : Type κ} (o : Option A) (e : E) (a : A) → ok_or o e ≡ ok a → o ≡ some a
ok_or_ok none e a h = cc
ok_or_ok (some x) e a h = cc

pub ok_inj {ℓ κ} : {E : Type ℓ} {A : Type κ} (a b : A) → ◌≡◌ {A = Result E A} (ok a) (ok b) → a ≡ b
ok_inj a b h = cc

pub err_ne_ok {ℓ κ} :
    {E : Type ℓ} {A : Type κ} (e : E) (a : A) → ◌≢◌ {A = Result E A} (err e) (ok a)
err_ne_ok e a h = cc

pub then_ok {ℓ κ} :
    {E : Type ℓ} {B : Type κ} (m : Result E (Unit {0})) (k : Result E B) (b : B)
    → (m >> k) ≡ ok b
    → (m ≡ ok tt) × (k ≡ ok b)
then_ok (ok tt) k b h = (refl, h)
then_ok (err e) k b h = cc

pub ensure_ok {ℓ} : {E : Type ℓ} (t : Bool) (e : E) → ensure t e ≡ ok tt → t ≡ true
ensure_ok true e h = refl
ensure_ok false e h = cc

err_inj {ℓ κ} : {E : Type ℓ} {B : Type κ} (c e : E) → ◌≡◌ {A = Result E B} (err c) (err e) → c ≡ e
err_inj c e h = cc

pub then_err {ℓ κ} :
    {E : Type ℓ} {B : Type κ} (m : Result E (Unit {0})) (k : Result E B) (e : E)
    → (m >> k) ≡ err e
    → (m ≡ err e) ⊎ (k ≡ err e)
then_err (ok tt) k e h = inr h
then_err (err c) k e h = inl (ap (λ x. err x) (err_inj c e h))

pub ensure_err {ℓ} : {E : Type ℓ} (t : Bool) (c e : E) → ensure t c ≡ err e → e ≡ c
ensure_err true c e h = cc
ensure_err false c e h = cc
