-- ===== src/Safety/KillSwitch.antt =====
-- The kill switch of `ExecutionSafety` (safety.py). The store behind it (Redis or another client) is
-- a parameter: a read may fail, and a client may lack `.set`.
use algo_dollar.Base.{
  sym, subst, String, ◌==◌, eq_iff, ◌≡◌, Bool, true, false, not, ◌&&◌, ◌⊎◌, inl, inr, Option, none,
  some, List, [], ◌∷◌, if◌then◌else◌, arith, ◌↔◌,
}
use algo_dollar.Base.Member.{contains}
use algo_dollar.Errors.{Result, ok, err, kill_switch_active, safety_check, Result-cases}

-- What a client may hand back: a text, bytes (as the text that they spell), or another object: one
-- that is true, one equal to 0 (`False` is), or another that is false.
pub data StoreValue : Type 0 where
  text bytes : String → StoreValue
  truthy zero falsy : StoreValue

pub record KillStore (K : Type 0) : Type 0 where
  -- `.get("kill_switch")`; `none` is `None`
  pub get : K → Result (Option StoreValue)
  -- `.set("kill_switch", "1")`, if the client has it: it may raise, and have written all the same
  pub set : Option (K → Result (Unit {0}) × K)

-- `_FALSEY`, as texts and as bytes
abbrev falsey_texts : List String
falsey_texts = "0" ∷ "false" ∷ "False" ∷ "" ∷ []

unfoldable pub in_falsey : StoreValue → Bool
unfolding contains
in_falsey (text s) = contains s falsey_texts
in_falsey (bytes s) = contains s falsey_texts
in_falsey truthy = false
in_falsey zero = false
in_falsey falsy = false

-- `bool(val)`
abbrev pub is_true_value : StoreValue → Bool
is_true_value (text s) = not (s == "")
is_true_value (bytes s) = not (s == "")
is_true_value truthy = true
is_true_value zero = false
is_true_value falsy = false

unfoldable pub is_engaged : Option StoreValue → Bool
is_engaged none = false
is_engaged (some v) = not (in_falsey v) && is_true_value v

-- `val is None or val in self._FALSEY`, the test of the value that is read back
abbrev is_unset : Option StoreValue → Bool
is_unset none = true
is_unset (some v) = in_falsey v

-- A false object that is neither `None` nor text nor bytes.
abbrev pub IsFalseObject : Option StoreValue → Type 0
IsFalseObject (some zero) = Unit
IsFalseObject (some falsy) = Unit
IsFalseObject _ = ⊥

set_engaged : (v : Option StoreValue) → is_unset v ≡ false → (is_engaged v ≡ true) ⊎ IsFalseObject v
unfolding is_engaged contains in_falsey
set_engaged none h = ground arith
set_engaged (some (text s)) h = ground (arith, eq_iff "" s, eq_iff s "")
set_engaged (some (bytes s)) h = ground (arith, eq_iff "" s, eq_iff s "")
set_engaged (some truthy) h = ground arith
set_engaged (some zero) h = inr tt
set_engaged (some falsy) h = inr tt

-- The write, if the client has one, keeps a property of the store.
abbrev pub SetKeeps : {K : Type 0} → (K → Type 0) → Option (K → Result (Unit {0}) × K) → K → Type 0
SetKeeps Q none k = Unit
SetKeeps Q (some set) k = Q (set k).1

module _ {K : Type 0} (ks : KillStore K) where
  unfoldable pub check_kill_switch : K → Result (Unit {0})
  check_kill_switch k = elim (ks.get k) [
    | err e ↦ err (kill_switch_active "Kill-switch store unreadable; failing closed.")
    | ok v ↦
        if is_engaged v then err (kill_switch_active "Global kill switch is active.") else ok tt
  ]

  -- `check_kill_switch` raises nothing but the error that this catches.
  unfoldable pub is_kill_switch_active : K → Bool
  unfolding check_kill_switch
  is_kill_switch_active k = elim (check_kill_switch k) [ ok _ ↦ false | err _ ↦ true ]

  verify_engaged : K → Result (Unit {0}) × K
  verify_engaged k = elim (ks.get k) [
    | err e ↦ (err (safety_check "kill switch write could not be verified"), k)
    | ok v ↦
        if is_unset v
        then (err (safety_check "kill switch write did not persist"), k)
        else (ok tt, k)
  ]

  engage_with : Option (K → Result (Unit {0}) × K) → K → Result (Unit {0}) × K
  engage_with none k = (err (safety_check "kill-switch store cannot be written (.set missing)"), k)
  engage_with (some set) k =
      let (r, k') = set k in
      elim r [
        | err e ↦ (err (safety_check "failed to engage kill switch"), k')
        | ok _ ↦ verify_engaged k'
      ]

  unfoldable pub engage_kill_switch : K → Result (Unit {0}) × K
  unfolding engage_with verify_engaged
  engage_kill_switch k = engage_with ks.set k

  -- The switch is off exactly if the store can be read and holds no value, or one that is falsey.
  pub check_kill_switch_iff :
      (k : K)
      → (check_kill_switch k ≡ ok tt)
        ↔ ((v : Option StoreValue) × (ks.get k ≡ ok v) × (is_engaged v ≡ false))
  unfolding check_kill_switch
  check_kill_switch_iff k = elim (Result-cases (ks.get k)) [
    | inl (v, e) ↦ (λ h. (v, e, ground arith), λ q. ground arith)
    | inr (x, e) ↦ (λ h. ground arith, λ q. ground arith)
  ]

  verify_engaged-active :
      (k : K)
      → (verify_engaged k).0 ≡ ok tt
      → let k' = (verify_engaged k).1 in
        (is_kill_switch_active k' ≡ true)
        ⊎ ((v : Option StoreValue) × (ks.get k' ≡ ok v) × IsFalseObject v)
  unfolding verify_engaged is_kill_switch_active
  verify_engaged-active k h = elim (Result-cases (ks.get k)) [
    | inl (v, e) ↦ ground (arith, set_engaged v)
    | inr (x, e) ↦ ground arith
  ]

  engage_with-active :
      (setter : Option (K → Result (Unit {0}) × K)) (k : K)
      → (engage_with setter k).0 ≡ ok tt
      → let k' = (engage_with setter k).1 in
        (is_kill_switch_active k' ≡ true)
        ⊎ ((v : Option StoreValue) × (ks.get k' ≡ ok v) × IsFalseObject v)
  unfolding engage_with
  engage_with-active none k h = ground arith
  engage_with-active (some set) k h = elim (Result-cases (set k).0) [
    | inl (u, e) ↦ ground (arith, verify_engaged-active (set k).1)
    | inr (x, e) ↦ ground arith
  ]

  -- Where engaging the switch reports success, the switch reads as active from then on, unless the
  -- client hands back an object that is neither text nor bytes and is false.
  pub engage_kill_switch-active :
      (k : K)
      → (engage_kill_switch k).0 ≡ ok tt
      → let k' = (engage_kill_switch k).1 in
        (is_kill_switch_active k' ≡ true)
        ⊎ ((v : Option StoreValue) × (ks.get k' ≡ ok v) × IsFalseObject v)
  unfolding engage_kill_switch
  engage_kill_switch-active k h = engage_with-active ks.set k h

  verify_engaged_same : (k : K) → (verify_engaged k).1 ≡ k
  unfolding verify_engaged
  verify_engaged_same k = ground arith

  engage_with_keeps :
      (Q : K → Type 0) (setter : Option (K → Result (Unit {0}) × K)) (k : K)
      → SetKeeps Q setter k
      → Q k
      → Q (engage_with setter k).1
  unfolding engage_with
  engage_with_keeps Q none k kept q = q
  engage_with_keeps Q (some set) k kept q = elim (Result-cases (set k).0) [
    | inl (u, e) ↦ rw (e, engage_with) (subst Q (sym (verify_engaged_same (set k).1)) kept)
    | inr (x, e) ↦ rw (e, engage_with) kept
  ]

  -- What a write of the client keeps, engaging keeps.
  pub engage_kill_switch_keeps :
      (Q : K → Type 0) (k : K) → SetKeeps Q ks.set k → Q k → Q (engage_kill_switch k).1
  unfolding engage_kill_switch
  engage_kill_switch_keeps Q k kept q = engage_with_keeps Q ks.set k kept q
