-- ===== src/Errors.antt =====
-- The exceptions of backend/app/execution (lifecycle.py, safety.py, order_manager.py,
-- reconciliation.py, recovery.py), with their messages, and functions that may raise. `other` is any exception of
-- another class, such as one that a broker adapter lets through.
use mathlib.Core.Path.{◌≡◌, refl}
use algo_dollar.Base.{String, Bool, true, false, ◌⊎◌, inl, inr}

pub data Exn : Type 0 where
  illegal_transition order_blocked persistence value_error : String → Exn
  safety_check kill_switch_active market_closed stale_data daily_loss_limit : String → Exn
  order_submission ambiguous_order live_blocked other : String → Exn
  reconciliation kill_switch_activation trading_blocked : String → Exn

-- `isinstance(exc, SafetyCheckError)`
abbrev pub is_safety_error : Exn → Bool
is_safety_error (safety_check _) = true
is_safety_error (kill_switch_active _) = true
is_safety_error (market_closed _) = true
is_safety_error (stale_data _) = true
is_safety_error (daily_loss_limit _) = true
is_safety_error _ = false

-- `str(exc)`
abbrev pub message : Exn → String
message (illegal_transition m) = m
message (order_blocked m) = m
message (persistence m) = m
message (value_error m) = m
message (safety_check m) = m
message (kill_switch_active m) = m
message (market_closed m) = m
message (stale_data m) = m
message (daily_loss_limit m) = m
message (order_submission m) = m
message (ambiguous_order m) = m
message (live_blocked m) = m
message (other m) = m
message (reconciliation m) = m
message (kill_switch_activation m) = m
message (trading_blocked m) = m

pub data Result {ℓ} (A : Type ℓ) : Type ℓ where
  ok : A → Result A
  err : Exn → Result A

-- `if bad: raise e`
abbrev pub raise_if : Bool → Exn → Result (Unit {0})
raise_if true e = err e
raise_if false e = ok tt

abbrev pub is_ok {ℓ} : {A : Type ℓ} → Result A → Bool
is_ok (ok _) = true
is_ok (err _) = false

infixl 5 ◌>>=◌ ◌>>◌
-- The rest of a coroutine after a call that may raise.
abbrev pub ◌>>=◌ {ℓ κ} : {A : Type ℓ} {B : Type κ} → Result A → (A → Result B) → Result B
ok value >>= rest = rest value
err raised >>= rest = err raised

abbrev pub ◌>>◌ {ℓ} : {B : Type ℓ} → Result (Unit {0}) → Result B → Result B
check >> rest = check >>= λ _. rest

-- Inversion of a call and what follows it.
pub >>=-eq-ok {ℓ κ} :
    {A : Type ℓ} {B : Type κ} (m : Result A) (k : A → Result B) {b : B}
    → (m >>= k) ≡ ok b
    → (a : A) × (m ≡ ok a) × (k a ≡ ok b)
>>=-eq-ok (ok a) k h = (a, refl, h)
>>=-eq-ok (err e) k h = cc

pub ok-pair {ℓ κ} :
    {A : Type ℓ} {B : Type κ} {a a' : A} {b b' : B}
    → Path (Result (A × B)) (ok (a, b)) (ok (a', b'))
    → (a ≡ a') × (b ≡ b')
ok-pair e = (cc, cc)

-- To split on the outcome of a call and keep the equation.
pub Result-cases {ℓ} :
    {A : Type ℓ} (m : Result A) → ((a : A) × (m ≡ ok a)) ⊎ ((e : Exn) × (m ≡ err e))
Result-cases (ok a) = inl (a, refl)
Result-cases (err e) = inr (e, refl)

-- Inversion of a check and what follows it.
pub >>-eq-ok {ℓ} :
    {B : Type ℓ} (m : Result (Unit {0})) (k : Result B) {b : B}
    → (m >> k) ≡ ok b
    → (m ≡ ok tt) × (k ≡ ok b)
>>-eq-ok (ok tt) k h = (refl, h)
>>-eq-ok (err e) k h = cc
