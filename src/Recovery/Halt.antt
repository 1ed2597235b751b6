-- ===== src/Recovery/Halt.antt =====
-- What a recovery that does not permit trading reports of the kill switch (recovery.py).
use algo_dollar.Base.{◌≡◌, refl, ap, String, Bool, true, false, ◌⊎◌, inl, inr, Option, some}
use algo_dollar.Errors.{Exn, Result, ok, err, message}
use algo_dollar.Double.{Double}
use algo_dollar.Reconcile.Values.{Conversions}
use algo_dollar.Reconcile.Status.{permits_trading}
use algo_dollar.Reconcile.Snapshot.{Tolerances}
use algo_dollar.Reconcile.Engine.{ReconciliationResult, HaltStore, finish, enforce}
use algo_dollar.Reconcile.Engine.Halt.{Halted, NotActivated, enforce-Halted}
use algo_dollar.Recovery.{blocked, RecoveryReport, RecoveryManager, Surroundings, Sequence}
use algo_dollar.Recovery.Steps.{run_sequence}
use algo_dollar.Recovery.Startup.{report_of, halted, finish_recovery, recover_startup}

ok_one : {A : Type 0} {a b : A} → Path (Result A) (ok a) (ok b) → a ≡ b
ok_one e = cc

raised_as :
    {A B : Type 0} (e x : Exn) → Path (Result A) (err e) (err x) → Path (Result B) (err e) (err x)
raised_as e x h = cc

module _ {F : Type 0} where
  switched :
      (r result : ReconciliationResult F)
      → Path
          (Result (ReconciliationResult F))
          (ok r)
          (ok (record result { kill_switch_activated = true }))
      → r.kill_switch_activated ≡ true
  switched r result e = ap (λ x. x.kill_switch_activated) (ok_one e)

module _ {F W : Type 0} where
  -- The report says that the switch was turned on, and it was; or it gives the error, and the call
  -- raises it if it is asked to.
  pub data HaltTold (raising : Bool) (store : Option (HaltStore W)) (before : W)
      (report : RecoveryReport F) (out : Result (RecoveryReport F)) (after : W) : Type 0 where
    turned_on :
        report.kill_switch_activated ≡ true
        → out ≡ ok report
        → Halted store before after
        → HaltTold raising store before report out after
    not_turned_on :
        report.kill_switch_activated ≡ false
        → (m : String) × (report.kill_switch_error ≡ some m)
        → (raising ≡ true → NotActivated out)
        → (raising ≡ false → out ≡ ok report)
        → HaltTold raising store before report out after

  halted-HaltTold :
      (raising : Bool) (store : Option (HaltStore W)) (before : W) (report : RecoveryReport F)
      (m : RecoveryManager F) (result : ReconciliationResult F)
      (x : Result (ReconciliationResult F) × W)
      → report.kill_switch_activated ≡ false
      → ((x.0 ≡ finish false (record result { kill_switch_activated = true }))
          × Halted store before x.1)
        ⊎ NotActivated x.0
      → (told : RecoveryReport F) × ((halted raising report m x).1
          ≡ record m { last_report = some told })
        × (told.state ≡ report.state)
        × HaltTold raising store before told
            (halted raising report m x).0
            (halted raising report m x).2
  halted-HaltTold raising store before report m result (ok r, w) off (inl (e, on)) =
      let marked : r.kill_switch_activated ≡ true = switched r result e in
      (_, refl, refl, turned_on marked refl on)
  halted-HaltTold raising store before report m result (ok r, w) off (inr not_on) =
      let (text, bad) = not_on in cc bad
  halted-HaltTold raising store before report m result (err e, w) off (inl (e', on)) = cc e'
  halted-HaltTold raising store before report m result (err e, w) off (inr (text, bad)) = (
    _,
    refl,
    refl,
    not_turned_on off (message e, refl) (λ sure. (text, rw sure (raised_as e _ bad)))
        (λ not_asked. rw not_asked refl),
  )

module _ {F W : Type 0} (env : Surroundings F W) where
  finish_recovery-HaltTold :
      (raising : Bool) (seq : Sequence F W) (m : RecoveryManager F)
      → permits_trading seq.result.status ≡ false
      → env.kill_on seq.result.status ≡ true
      → (let (out, m', after) = finish_recovery env raising seq m in
          (told : RecoveryReport F) × (m' ≡ record { state = blocked; last_report = some told })
          × (told.state ≡ blocked)
          × HaltTold raising env.halt_store seq.world told out after)
  unfolding finish_recovery
  finish_recovery-HaltTold raising seq m closed on = rw closed (
      halted-HaltTold raising env.halt_store seq.world (report_of seq blocked false)
        (record m { state = blocked }) seq.result
        (enforce env.halt_store env.kill_on false seq.result seq.world) refl
        (enforce-Halted env.halt_store env.kill_on false seq.result seq.world closed on))

module _ {F W : Type 0} ⦃d : Double F⦄ (py : Conversions F) (tol : Tolerances F)
    (env : Surroundings F W) where
  -- A recovery whose last pass does not permit trading, with a status for which the kill switch is to
  -- be thrown, leaves the manager blocked and keeps its report. Either the report says that the
  -- switch was turned on, the call returns it, the write of the switch has returned and a read-back,
  -- where the client has one, showed it on; or the report says that it was not and why, and the call
  -- raises so if it was asked to, and otherwise returns the report.
  pub recover_startup-HaltTold :
      (raising : Bool) (m : RecoveryManager F) (w : W)
      → permits_trading (run_sequence py tol env w).result.status ≡ false
      → env.kill_on (run_sequence py tol env w).result.status ≡ true
      → (let (out, m', after) = recover_startup py tol env raising m w in
          (told : RecoveryReport F) × (m' ≡ record { state = blocked; last_report = some told })
          × (told.state ≡ blocked)
          × HaltTold raising env.halt_store (run_sequence py tol env w).world told out after)
  unfolding recover_startup
  recover_startup-HaltTold raising m w closed on =
      finish_recovery-HaltTold env raising (run_sequence py tol env w) _ closed on
