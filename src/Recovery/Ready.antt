-- ===== src/Recovery/Ready.antt =====
-- When trading is permitted after any calls of `RecoveryManager` (recovery.py).
use algo_dollar.Base.{
  ◌≡◌, refl, sym, ◌∙◌, ap, Bool, true, false, ◌⊎◌, inl, inr, List, [], ◌∷◌, ◌++◌, Bool-cases,
}
use algo_dollar.Errors.{Result, ok, err}
use algo_dollar.Double.{Double}
use algo_dollar.Reconcile.Values.{Conversions}
use algo_dollar.Reconcile.Status.{permits_trading}
use algo_dollar.Reconcile.Snapshot.{Tolerances}
use algo_dollar.Reconcile.Engine.{ReconciliationResult}
use algo_dollar.Reconcile.Engine.Verdict.{IsReconciled, evaluate_iff}
use algo_dollar.Recovery.{
  blocked, permits, RecoveryReport, RecoveryManager, new_manager, require_ready, block, enter_ready,
  Surroundings, Sequence,
}
use algo_dollar.Recovery.Steps.{run_sequence}
use algo_dollar.Recovery.Startup.{report_of, halted, finish_recovery, recover_startup}
use algo_dollar.Recovery.Decision.{
  pass, attempt, DecidesBy, at_once, aborted, unresolved, again, run_sequence-DecidesBy,
}

module _ {F W : Type 0} where
  halted-state :
      (raising : Bool) (report : RecoveryReport F) (m : RecoveryManager F)
      (x : Result (ReconciliationResult F) × W)
      → (halted raising report m x).1.state ≡ m.state
  halted-state raising report m (ok r, w) = refl
  halted-state raising report m (err e, w) = refl

  -- Only a result that permits trading makes the manager ready.
  finish_recovery-ready :
      (env : Surroundings F W) (raising : Bool) (seq : Sequence F W) (m : RecoveryManager F)
      → permits (finish_recovery env raising seq m).1.state ≡ permits_trading seq.result.status
  unfolding finish_recovery enter_ready
  finish_recovery-ready env raising seq m = elim (Bool-cases (permits_trading seq.result.status)) [
    | inl e ↦ rw e refl
    | inr e ↦ rw e (
        ap permits
          (halted-state raising (report_of seq blocked false) (record m { state = blocked }) _))
  ]

module _ {F : Type 0} where
  require_ready-permits : (m : RecoveryManager F) → require_ready m ≡ ok tt → permits m.state ≡ true
  unfolding require_ready
  require_ready-permits m h = elim (Bool-cases (permits m.state)) [
    | inl e ↦ e
    | inr e ↦ cc (rw e at h)
  ]

-- A call of the manager that may change whether trading is permitted.
pub data Operation : Type 0 where
  recovery : (raise_on_kill_switch_failure : Bool) → Operation
  blocking : Operation

module _ {F W : Type 0} ⦃d : Double F⦄ (py : Conversions F) (tol : Tolerances F)
    (env : Surroundings F W) where
  -- Calls in turn, each with the state of the world at its start: between two of them anything may
  -- happen. A recovery that raises leaves the manager as it is then.
  unfoldable pub run_manager : List (Operation × W) → RecoveryManager F → RecoveryManager F
  run_manager [] m = m
  run_manager ((recovery raising, w) ∷ calls) m =
      run_manager calls (recover_startup py tol env raising m w).1
  run_manager ((blocking, w) ∷ calls) m = run_manager calls (block m)

  -- A state of the world in which a recovery that started in `w` found both sides to agree.
  pub record Vouched (w : W) : Type 0 where
    pub world : W
    pub decided :
        (world ≡ w)
        ⊎ ((permits_trading (pass py tol env w).status ≡ false)
            × (world ≡ (attempt py tol env w).1))
    pub reconciled : IsReconciled py tol (env.broker world) (env.local_state world)

  decided-Vouched :
      (w v : W) (result : ReconciliationResult F)
      → DecidesBy py tol env w result v
      → permits_trading result.status ≡ true
      → Vouched w
  decided-Vouched w v result (at_once permitted) sure = record {
    world = w;
    decided = inl refl;
    reconciled = (evaluate_iff py tol _ _).0 permitted;
  }
  decided-Vouched w v result (aborted closed) sure = cc (sym closed ∙ sure)
  decided-Vouched w v result (unresolved closed none_done) sure = cc (sym closed ∙ sure)
  decided-Vouched w v result (again closed done) sure = record {
    world = (attempt py tol env w).1;
    decided = inr (closed, refl);
    reconciled = (evaluate_iff py tol _ _).0 sure;
  }

  recover-Vouched :
      (raising : Bool) (m : RecoveryManager F) (w : W)
      → permits (recover_startup py tol env raising m w).1.state ≡ true
      → Vouched w
  unfolding recover_startup
  recover-Vouched raising m w sure =
      decided-Vouched w _ _ (run_sequence-DecidesBy py tol env w)
        (sym (finish_recovery-ready env raising (run_sequence py tol env w) _) ∙ sure)

  -- The last call was a recovery, and it found both sides to agree.
  pub record LastVouched (calls : List (Operation × W)) : Type 0 where
    pub before : List (Operation × W)
    pub raising : Bool
    pub at : W
    pub last : calls ≡ before ++ (recovery raising, at) ∷ []
    pub vouched : Vouched at

  after_one :
      (call : Operation × W) (calls : List (Operation × W))
      → LastVouched calls
      → LastVouched (call ∷ calls)
  after_one call calls l = record {
    before = call ∷ l.before;
    raising = l.raising;
    at = l.at;
    last = ap (λ x. call ∷ x) l.last;
    vouched = l.vouched;
  }

  ready_after :
      (calls : List (Operation × W)) (m : RecoveryManager F)
      → permits (run_manager calls m).state ≡ true
      → ((calls ≡ []) × (permits m.state ≡ true)) ⊎ LastVouched calls
  unfolding run_manager block
  ready_after [] m sure = inl (refl, sure)
  ready_after ((recovery raising, w) ∷ calls) m sure = elim (ready_after calls _ sure) [
    | inl (e, here) ↦ inr (record {
      before = [];
      raising = raising;
      at = w;
      last = ap (λ x. (recovery raising, w) ∷ x) e;
      vouched = recover-Vouched raising m w here;
    })
    | inr later ↦ inr (after_one (recovery raising, w) calls later)
  ]
  ready_after ((blocking, w) ∷ calls) m sure = elim (ready_after calls _ sure) [
    | inl (e, here) ↦ cc here
    | inr later ↦ inr (after_one (blocking, w) calls later)
  ]

  -- Whatever is called on a new manager, and whatever happens in between: if trading is permitted
  -- at the end, then the last call was a recovery, and in the state of the world at its start, or in
  -- the one after its attempt to resolve what the first pass found, both sides were read in full
  -- and the comparisons of the reconciliation found nothing.
  pub require_ready-LastVouched :
      (calls : List (Operation × W))
      → require_ready (run_manager calls new_manager) ≡ ok tt
      → LastVouched calls
  require_ready-LastVouched calls h =
      elim (ready_after calls new_manager (require_ready-permits _ h)) [
        | inl (none_called, sure) ↦ cc sure
        | inr vouched ↦ vouched
      ]
