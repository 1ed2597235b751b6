-- ===== src/Reconcile/Engine.antt =====
-- `ReconciliationEngine` of reconciliation.py: fetching both sides, the five comparisons, the verdict,
-- and the kill switch. The broker, the local state store and the kill-switch client are parameters.
pub mod Verdict
pub mod Halt
pub mod Agreed
use algo_dollar.Base.{
  String, Bool, true, false, not, ◌&&◌, ◌||◌, Option, none, some, List, [], ◌∷◌, ◌++◌, keep_if,
  is_nonempty, ◌==◌, if◌then◌else◌,
}
use algo_dollar.Base.Member.{contains}
use algo_dollar.Errors.{
  Exn, Result, ok, err, ◌>>=◌, message, reconciliation, kill_switch_activation,
}
use algo_dollar.Double.{Double}
use algo_dollar.Safety.KillSwitch.{StoreValue, text, bytes, truthy, zero, falsy}
use algo_dollar.Reconcile.Values.{Row, Conversions}
use algo_dollar.Reconcile.Status.{
  ReconciliationStatus, reconciliation_ok, reconciliation_mismatch, reconciliation_unavailable,
  reconciliation_error, permits_trading,
}
use algo_dollar.Reconcile.Found.{Discrepancy}
use algo_dollar.Reconcile.Snapshot.{Snapshot, Tolerances}
use algo_dollar.Reconcile.Orders.{reconcile_orders, identify_unknown_orders}
use algo_dollar.Reconcile.Positions.{reconcile_positions, reconcile_cash}

-- What a fetch returns: a value of the expected type, or `None` or one of another type.
pub data Fetched (A : Type 0) : Type 0 where
  given : A → Fetched A
  unusable : Fetched A

-- One side: a `LocalStateStore`, or the four reads of a broker (`get_cash` is `get_funds` there). Each
-- may raise.
pub record Source (F : Type 0) : Type 0 where
  pub get_positions : Result (Fetched (List (Row F)))
  pub get_orders : Result (Fetched (List (Row F)))
  pub get_trades : Result (Fetched (List (Row F)))
  pub get_cash : Result (Fetched (Row F))

-- `_safe_fetch`: what was fetched, and the names of the sources that could not be.
unfoldable pub safe_fetch :
    {A : Type 0} → Result (Fetched A) → String → List String → Option A × List String
safe_fetch (ok (given a)) name unavailable = (some a, unavailable)
safe_fetch (ok unusable) name unavailable = (none, unavailable ++ name ∷ [])
safe_fetch (err e) name unavailable = (none, unavailable ++ name ∷ [])

module _ {F : Type 0} where
  -- `fetch_local`, after `resolve_local_state`: with no store the four local sources are unavailable.
  unfoldable pub fetch_local : Option (Source F) → Snapshot F → Snapshot F
  unfolding safe_fetch
  fetch_local none snap = record snap {
    unavailable =
        snap.unavailable ++ "local_positions" ∷ "local_orders" ∷ "local_trades" ∷ "local_cash" ∷ [];
  }
  fetch_local (some store) snap =
      let (positions, u1) = safe_fetch store.get_positions "local_positions" snap.unavailable in
      let (orders, u2) = safe_fetch store.get_orders "local_orders" u1 in
      let (trades, u3) = safe_fetch store.get_trades "local_trades" u2 in
      let (cash, u4) = safe_fetch store.get_cash "local_cash" u3 in
      record snap {
        local_positions = positions;
        local_orders = orders;
        local_trades = trades;
        local_cash = cash;
        unavailable = u4;
      }

  unfoldable pub fetch_broker : Source F → Snapshot F → Snapshot F
  unfolding safe_fetch
  fetch_broker broker snap =
      let (positions, u1) = safe_fetch broker.get_positions "broker_positions" snap.unavailable in
      let (orders, u2) = safe_fetch broker.get_orders "broker_orders" u1 in
      let (trades, u3) = safe_fetch broker.get_trades "broker_trades" u2 in
      let (cash, u4) = safe_fetch broker.get_cash "broker_cash" u3 in
      record snap {
        broker_positions = positions;
        broker_orders = orders;
        broker_trades = trades;
        broker_cash = cash;
        unavailable = u4;
      }

  abbrev pub empty_snapshot : Snapshot F
  empty_snapshot = record {
    broker_positions = none;
    broker_orders = none;
    broker_trades = none;
    broker_cash = none;
    local_positions = none;
    local_orders = none;
    local_trades = none;
    local_cash = none;
    unavailable = [];
  }

  unfoldable pub gather : Source F → Option (Source F) → Snapshot F
  unfolding fetch_local fetch_broker
  gather broker store = fetch_broker broker (fetch_local store empty_snapshot)

-- The names of all the sources, sorted.
abbrev pub all_sources : List String
all_sources =
    "broker_cash" ∷ "broker_orders" ∷ "broker_positions" ∷ "broker_trades" ∷ "local_cash"
    ∷ "local_orders" ∷ "local_positions" ∷ "local_trades" ∷ []

pub record ReconciliationResult (F : Type 0) : Type 0 where
  pub status : ReconciliationStatus
  pub discrepancies : List (Discrepancy F)
  pub unavailable_sources : List String
  pub snapshot : Option (Snapshot F)
  pub kill_switch_activated : Bool
  pub error : Option String

abbrev pub is_empty : {A : Type 0} → List A → Bool
is_empty [] = true
is_empty (_ ∷ _) = false

module _ {F : Type 0} where
  -- `classify`. `sorted(set(...))` keeps those of the eight names that occur.
  unfoldable pub classify : Snapshot F → List (Discrepancy F) → ReconciliationResult F
  unfolding contains
  classify snap discrepancies =
      if not (is_empty snap.unavailable)
      then (record {
        status = reconciliation_unavailable;
        discrepancies = discrepancies;
        unavailable_sources = keep_if (λ name. contains name snap.unavailable) all_sources;
        snapshot = some snap;
        kill_switch_activated = false;
        error = none;
      })
      else (record {
        status = if is_empty discrepancies then reconciliation_ok else reconciliation_mismatch;
        discrepancies = discrepancies;
        unavailable_sources = [];
        snapshot = some snap;
        kill_switch_activated = false;
        error = none;
      })

  -- The result of a pass that raised.
  abbrev failed_result : Exn → ReconciliationResult F
  failed_result e = record {
    status = reconciliation_error;
    discrepancies = [];
    unavailable_sources = [];
    snapshot = none;
    kill_switch_activated = false;
    error = some (message e);
  }

  abbrev pub verdict : Snapshot F → Result (List (Discrepancy F)) → ReconciliationResult F
  verdict snap (ok discrepancies) = classify snap discrepancies
  verdict snap (err e) = failed_result e

module _ {F : Type 0} ⦃d : Double F⦄ (py : Conversions F) (tol : Tolerances F) where
  -- The comparisons of `evaluate`, in their order.
  unfoldable pub compare_all : Snapshot F → Result (List (Discrepancy F))
  compare_all snap = reconcile_orders py tol snap >>= λ orders.
      reconcile_positions py tol snap >>= λ positions. reconcile_cash py tol snap >>= λ cash.
      identify_unknown_orders py snap >>= λ unknown. ok (orders ++ (positions ++ (cash ++ unknown)))

  unfoldable pub evaluate : Source F → Option (Source F) → ReconciliationResult F
  evaluate broker store = let snap = gather broker store in verdict snap (compare_all snap)

-- A kill-switch client: `.set("kill_switch", "1")`, which may raise and have written all the same, and
-- `.get("kill_switch")`, if the client has it.
pub record HaltStore (K : Type 0) : Type 0 where
  pub set : K → Result (Unit {0}) × K
  pub get : Option (K → Result (Option StoreValue))

-- `value in (None, "", b"", "0", b"0", 0, False)`; a false object that is not equal to one of these,
-- such as an empty list, is not among them.
abbrev pub reads_as_off : Option StoreValue → Bool
reads_as_off none = true
reads_as_off (some (text s)) = not (is_nonempty s) || s == "0"
reads_as_off (some (bytes s)) = not (is_nonempty s) || s == "0"
reads_as_off (some truthy) = false
reads_as_off (some zero) = true
reads_as_off (some falsy) = false

module _ {K : Type 0} where
  -- The read-back.
  unfoldable pub verify_halt : Option (K → Result (Option StoreValue)) → K → Result (Unit {0})
  verify_halt none k = ok tt
  verify_halt (some get) k = elim (get k) [
    | err e ↦ err (kill_switch_activation "KILL SWITCH UNVERIFIED")
    | ok v ↦
        if reads_as_off v then err (kill_switch_activation "KILL SWITCH NOT ACTIVATED") else ok tt
  ]

  -- What follows the write.
  abbrev pub after_write :
      Option (K → Result (Option StoreValue)) → Result (Unit {0}) × K → Result (Unit {0}) × K
  after_write get (err e, k) = (err (kill_switch_activation "KILL SWITCH NOT ACTIVATED"), k)
  after_write get (ok _, k) = (verify_halt get k, k)

  -- `_activate_kill_switch`
  unfoldable pub activate_kill_switch : Option (HaltStore K) → K → Result (Unit {0}) × K
  unfolding verify_halt
  activate_kill_switch none k = (err (kill_switch_activation "KILL SWITCH NOT ACTIVATED"), k)
  activate_kill_switch (some store) k = after_write store.get (store.set k)

module _ {F : Type 0} where
  abbrev pub finish : Bool → ReconciliationResult F → Result (ReconciliationResult F)
  finish true result = err (reconciliation "Reconciliation failed")
  finish false result = ok result

module _ {F K : Type 0} where
  abbrev pub after_activation :
      Bool → ReconciliationResult F → Result (Unit {0}) × K → Result (ReconciliationResult F) × K
  after_activation raising result (err e, k) = (err e, k)
  after_activation raising result (ok _, k) =
      (finish raising (record result { kill_switch_activated = true }), k)

  -- `enforce`; `kill_on` is `activate_kill_switch_on`.
  unfoldable pub enforce :
      Option (HaltStore K)
      → (kill_on : ReconciliationStatus → Bool) → (raise_on_failure : Bool) → ReconciliationResult F
      → K
      → Result (ReconciliationResult F) × K
  unfolding activate_kill_switch
  enforce store kill_on raising result k =
      if permits_trading result.status
      then (ok result, k)
      else if kill_on result.status
      then after_activation raising result (activate_kill_switch store k)
      else (finish raising result, k)

module _ {F K : Type 0} ⦃d : Double F⦄ (py : Conversions F) (tol : Tolerances F) where
  unfoldable pub reconcile :
      Option (HaltStore K)
      → (ReconciliationStatus → Bool)
      → (raise_on_failure : Bool) → Source F
      → Option (Source F)
      → K
      → Result (ReconciliationResult F) × K
  unfolding evaluate enforce
  reconcile store kill_on raising broker local k =
      enforce store kill_on raising (evaluate py tol broker local) k
