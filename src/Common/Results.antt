-- ===== src/Common/Results.antt =====
-- Rust's `Result<A, E>`, with `?` as a bind.
use mathlib.Core.Path.{◌≡◌, refl, ap}
use mathlib.Core.Logic.{◌⊎◌, inl, inr}
use mathlib.Core.Bool.{Bool, true, false}
use mathlib.Core.Option.{Option, none, some}
use ruoqa_mcp.Common.Tests.{if◌then◌else◌}

pub data Result {ℓ κ} (A : Type ℓ) (E : Type κ) : Type (ℓ ⊔ κ) where
  ok : A → Result A E
  err : E → Result A E

infixl 5 ◌>>◌ ◌>>=◌
-- A check before what it guards.
abbrev pub ◌>>◌ {κ μ} : {T : Type κ} {E : Type μ} → Result (Unit {0}) E → Result T E → Result T E
err why >> next = err why
ok _ >> next = next

-- `Result::and_then`, which is what `?` comes to.
abbrev pub ◌>>=◌ {ℓ κ μ} :
    {T : Type ℓ} {U : Type κ} {E : Type μ} → Result T E → (T → Result U E) → Result U E
err why >>= next = err why
ok value >>= next = next value

abbrev pub map_err {ℓ κ μ} :
    {A : Type ℓ} {E : Type κ} {F : Type μ} → (E → F) → Result A E → Result A F
map_err f (ok a) = ok a
map_err f (err e) = err (f e)

-- `Option::ok_or`.
abbrev pub ok_or {ℓ κ} : {A : Type ℓ} {E : Type κ} → Option A → E → Result A E
ok_or none e = err e
ok_or (some a) e = ok a

abbrev pub is_ok {ℓ κ} : {A : Type ℓ} {E : Type κ} → Result A E → Bool
is_ok (ok a) = true
is_ok (err e) = false

pub Result-cases {ℓ κ} :
    {A : Type ℓ} {E : Type κ} (r : Result A E) → ((a : A) × (r ≡ ok a)) ⊎ ((e : E) × (r ≡ err e))
Result-cases (ok a) = inl (a, refl)
Result-cases (err e) = inr (e, refl)

-- A chain that ends well began well.
pub >>=-eq-ok {ℓ κ μ} :
    {T : Type ℓ} {U : Type κ} {E : Type μ} (r : Result T E) (next : T → Result U E) {u : U}
    → (r >>= next) ≡ ok u
    → (t : T) × (r ≡ ok t) × (next t ≡ ok u)
>>=-eq-ok (err why) next e = absurd (cc)
>>=-eq-ok (ok t) next e = (t, refl, e)

pub ok-injective {ℓ κ} :
    {A : Type ℓ} {E : Type κ} {a b : A} → ◌≡◌ {A = Result A E} (ok a) (ok b) → a ≡ b
ok-injective e = cc

pub ok_or-eq-ok {ℓ κ} :
    {A : Type ℓ} {E : Type κ} (o : Option A) (why : E) {a : A} → ok_or o why ≡ ok a → o ≡ some a
ok_or-eq-ok none why e = absurd (cc)
ok_or-eq-ok (some x) why e = ap some (ok-injective e)

pub >>-eq-ok {κ μ} :
    {T : Type κ} {E : Type μ} (check : Result (Unit {0}) E) (next : Result T E) {t : T}
    → (check >> next) ≡ ok t
    → (check ≡ ok tt) × (next ≡ ok t)
>>-eq-ok (err why) next e = absurd (cc)
>>-eq-ok (ok tt) next e = (refl, e)

module _ {ℓ κ} {A : Type ℓ} {E : Type κ} where
  pub if_err_lem :
      (b : Bool) (why : E) (r : Result A E) {a : A}
      → (if b then err why else r) ≡ ok a
      → (b ≡ false) × (r ≡ ok a)
  if_err_lem true why r e = absurd (cc)
  if_err_lem false why r e = (refl, e)

  pub if_none_lem :
      (b : Bool) (r : Result (Option A) E) {a : A}
      → (if b then ok none else r) ≡ ok (some a)
      → (b ≡ false) × (r ≡ ok (some a))
  if_none_lem true r e = absurd (cc)
  if_none_lem false r e = (refl, e)
