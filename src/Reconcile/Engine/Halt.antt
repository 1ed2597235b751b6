-- ===== src/Reconcile/Engine/Halt.antt =====
-- What `enforce` of reconciliation.py does with a pass that does not permit trading.
use algo_dollar.Base.{
  ◌≡◌, refl, String, Bool, true, false, ◌⊎◌, inl, inr, Option, none, some, Bool-cases,
}
use algo_dollar.Errors.{Result, ok, err, kill_switch_activation, Result-cases}
use algo_dollar.Safety.KillSwitch.{StoreValue}
use algo_dollar.Reconcile.Status.{ReconciliationStatus, permits_trading}
use algo_dollar.Reconcile.Engine.{
  ReconciliationResult, HaltStore, reads_as_off, verify_halt, after_write, activate_kill_switch,
  finish, after_activation, enforce,
}

-- The switch could not be set, or could not be seen to be on.
abbrev pub NotActivated {ℓ} : {A : Type ℓ} → Result A → Type ℓ
NotActivated {A} r = (m : String) × (r ≡ err (kill_switch_activation m))

module _ {K : Type 0} where
  -- A read of the switch, if the client can read it, shows a value that is not off.
  abbrev pub ReadsOn : Option (K → Result (Option StoreValue)) → K → Type 0
  ReadsOn none k = Unit
  ReadsOn (some get) k = (v : Option StoreValue) × (get k ≡ ok v) × (reads_as_off v ≡ false)

  -- There is a client, its write has returned, and the switch reads as on afterwards.
  abbrev pub Halted : Option (HaltStore K) → (before after : K) → Type 0
  Halted none k k' = ⊥
  Halted (some store) k k' = (store.set k ≡ (ok tt, k')) × ReadsOn store.get k'

  verify_halt_lem :
      (get : Option (K → Result (Option StoreValue))) (k : K)
      → ((verify_halt get k ≡ ok tt) × ReadsOn get k) ⊎ NotActivated (verify_halt get k)
  unfolding verify_halt
  verify_halt_lem none k = inl (refl, tt)
  verify_halt_lem (some get) k = elim (Result-cases (get k)) [
    | inl (v, e) ↦ elim (Bool-cases (reads_as_off v)) [
      | inl off ↦ inr ("KILL SWITCH NOT ACTIVATED", rw e (rw off refl))
      | inr on ↦ inl (rw e (rw on refl), (v, e, on))
    ]
    | inr (x, e) ↦ inr ("KILL SWITCH UNVERIFIED", rw e refl)
  ]

  after_write_lem :
      (store : HaltStore K) (k : K) (w : Result (Unit {0}) × K)
      → store.set k ≡ w
      → (((after_write store.get w).0 ≡ ok tt) × Halted (some store) k (after_write store.get w).1)
        ⊎ NotActivated (after_write store.get w).0
  after_write_lem store k (ok u, k') e = elim (verify_halt_lem store.get k') [
    | inl (fine, on) ↦ inl (fine, (e, on))
    | inr bad ↦ inr bad
  ]
  after_write_lem store k (err x, k') e = inr ("KILL SWITCH NOT ACTIVATED", refl)

  activate_lem :
      (store : Option (HaltStore K)) (k : K)
      → (((activate_kill_switch store k).0 ≡ ok tt)
          × Halted store k (activate_kill_switch store k).1)
        ⊎ NotActivated (activate_kill_switch store k).0
  unfolding activate_kill_switch
  activate_lem none k = inr ("KILL SWITCH NOT ACTIVATED", refl)
  activate_lem (some store) k = after_write_lem store k (store.set k) refl

module _ {F K : Type 0} where
  after_activation_lem :
      (raising : Bool) (r : ReconciliationResult F) (store : Option (HaltStore K)) (k : K)
      (w : Result (Unit {0}) × K)
      → ((w.0 ≡ ok tt) × Halted store k w.1) ⊎ NotActivated w.0
      → (((after_activation raising r w).0
            ≡ finish raising (record r { kill_switch_activated = true }))
          × Halted store k (after_activation raising r w).1)
        ⊎ NotActivated (after_activation raising r w).0
  after_activation_lem raising r store k (ok u, k') (inl (_, halted)) = inl (refl, halted)
  after_activation_lem raising r store k (err x, k') (inl (bad, _)) = cc
  after_activation_lem raising r store k (ok u, k') (inr (m, bad)) = cc
  after_activation_lem raising r store k (err x, k') (inr (m, bad)) = inr (m, cc)

  -- A result that does not permit trading, of a status for which the kill switch is to be thrown:
  -- either the write of the switch returned, a read-back (where the client has one) shows it on, and
  -- the call raises or returns the result marked as halted, as the caller asked; or the call raises
  -- that the switch was not activated. It never reports a switch as thrown without that.
  pub enforce-Halted :
      (store : Option (HaltStore K)) (kill_on : ReconciliationStatus → Bool) (raising : Bool)
      (r : ReconciliationResult F) (k : K)
      → permits_trading r.status ≡ false
      → kill_on r.status ≡ true
      → (((enforce store kill_on raising r k).0
            ≡ finish raising (record r { kill_switch_activated = true }))
          × Halted store k (enforce store kill_on raising r k).1)
        ⊎ NotActivated (enforce store kill_on raising r k).0
  unfolding enforce
  enforce-Halted store kill_on raising r k blocked thrown = rw blocked (
      rw thrown (
        after_activation_lem raising r store k (activate_kill_switch store k)
          (activate_lem store k)))
