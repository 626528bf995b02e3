-- ===== src/Common/Result.antt =====
-- Calls that may end in a C++ exception.
use simple_ntpd.Common.{◌≡◌, refl, ap}

pub data Result {ℓ} (A : Type ℓ) : Type ℓ where
  exception : Result A
  ok : A → Result A

-- A call, and what is done with the value that it returns.
infixl 5 ◌>>=◌
abbrev pub ◌>>=◌ {κ ℓ} : {B : Type κ} {A : Type ℓ} → Result A → (A → Result B) → Result B
exception >>= next = exception
ok value >>= next = next value

module _ {κ ℓ} {B : Type κ} {A : Type ℓ} where
  pub bind-eq-ok :
      (call : Result A) (next : A → Result B) {end : B}
      → (call >>= next) ≡ ok end
      → (value : A) × (call ≡ ok value) × (next value ≡ ok end)
  bind-eq-ok exception next returned = cc
  bind-eq-ok (ok value) next returned = (value, refl, returned)

pub ok-value {ℓ} : {A : Type ℓ} {a b : A} → ok a ≡ ok b → a ≡ b
ok-value {a = a} h = ap (λ r. elim r [ ok x ↦ x | exception ↦ a ]) h
