-- ===== src/Common/Outcome.antt =====
-- A computation that may read or write through `NULL`, or divide by zero: the process dies.
use netvizd.Common.{◌≡◌, refl, ap, ◌∙◌}

pub data Outcome {ℓ} (A : Type ℓ) : Type ℓ where
  crash : Outcome A
  ok : A → Outcome A

infixl 5 ◌>>=◌
abbrev pub ◌>>=◌ {ℓ κ} : {A : Type ℓ} {B : Type κ} → Outcome A → (A → Outcome B) → Outcome B
crash >>= f = crash
ok a >>= f = f a

-- What returned, returned at each step.
pub >>=-eq-ok {ℓ κ} :
    {A : Type ℓ} {B : Type κ} (o : Outcome A) (next : A → Outcome B) {r : B}
    → (o >>= next) ≡ ok r
    → (x : A) × (o ≡ ok x) × (next x ≡ ok r)
>>=-eq-ok crash next e = cc
>>=-eq-ok (ok x) next e = (x, refl, e)

-- A computation that goes on after one that returns.
pub >>=-total {ℓ κ} :
    {A : Type ℓ} {B : Type κ} (m : Outcome A) (f : A → Outcome B) {a : A}
    → m ≡ ok a
    → (b : B) × (f a ≡ ok b)
    → (b : B) × ((m >>= f) ≡ ok b)
>>=-total crash f h t = cc
>>=-total (ok a') f h (b, e) = (b, ap (λ (o : Outcome _). o >>= f) h ∙ e)

-- The same, with what holds of the result.
pub >>=-with {ℓ κ} :
    {A : Type ℓ} {B : Type κ} (Q : B → Type 0) (m : Outcome A) (f : A → Outcome B) {a : A}
    → m ≡ ok a
    → (b : B) × (f a ≡ ok b) × Q b
    → (b : B) × ((m >>= f) ≡ ok b) × Q b
>>=-with Q crash f h t = cc
>>=-with Q (ok a') f h (b, e, q) = (b, ap (λ (o : Outcome _). o >>= f) h ∙ e, q)
