-- ===== src/Reconcile/Found.antt =====
-- `Discrepancy` of reconciliation.py, without the details text, and loops that collect them.
use algo_dollar.Base.{
  All, ℕ, ◌≡◌, refl, String, eq_iff, Bool, true, false, Option, some, List, [], ◌∷◌, ◌++◌, ℤ, arith,
}
use algo_dollar.Base.Dict.{Dict, lookup}
use algo_dollar.Errors.{Result, ok, err, ◌>>=◌}
use algo_dollar.Reconcile.Values.{Value}
use algo_dollar.Reconcile.Status.{DiscrepancyKind, Severity, critical}

-- What a discrepancy shows of one side.
pub data Shown (F : Type 0) : Type 0 where
  nothing : Shown F
  raw : Value F → Shown F
  whole : ℤ → Shown F
  number : F → Shown F
  status : List ℕ → Shown F

pub record Discrepancy (F : Type 0) : Type 0 where
  pub kind : DiscrepancyKind
  pub symbol : String
  pub order_id : Option String
  pub broker_value : Shown F
  pub local_value : Shown F
  pub severity : Severity

module _ {F : Type 0} where
  -- A discrepancy of the default severity.
  abbrev pub found :
      DiscrepancyKind
      → String
      → Option String
      → (broker_value local_value : Shown F) → Discrepancy F
  found kind symbol order_id broker_value local_value = record {
    kind = kind;
    symbol = symbol;
    order_id = order_id;
    broker_value = broker_value;
    local_value = local_value;
    severity = critical;
  }

-- `if test: out.append(x)`
abbrev pub note_if {ℓ} : {A : Type ℓ} → Bool → A → List A
note_if true x = x ∷ []
note_if false x = []

module _ {B : Type 0} where
  -- Two steps that find nothing together find nothing each.
  pub nothing_found :
      (m n : Result (List B))
      → (m >>= λ xs. n >>= λ ys. ok (xs ++ ys)) ≡ ok []
      → (m ≡ ok []) × (n ≡ ok [])
  nothing_found (ok []) (ok []) h = (refl, refl)
  nothing_found (ok []) (ok (y ∷ ys)) h = ground arith
  nothing_found (ok (x ∷ xs)) (ok ys) h = ground arith
  nothing_found (ok []) (err e) h = ground arith
  nothing_found (ok (x ∷ xs)) (err e) h = ground arith
  nothing_found (err e) n h = ground arith

-- A test that notes nothing has failed.
pub note_if_nothing {ℓ} : {A : Type ℓ} (test : Bool) (x : A) → note_if test x ≡ [] → test ≡ false
note_if_nothing true x h = ground arith
note_if_nothing false x h = refl

-- Two lists that are nothing together are nothing each.
pub append_nothing {ℓ} : {A : Type ℓ} (xs ys : List A) → xs ++ ys ≡ [] → (xs ≡ []) × (ys ≡ [])
append_nothing [] ys h = (refl, h)
append_nothing (x ∷ xs) ys h = ground arith

module _ {B : Type 0} where
  abbrev pub noted : List B → Result (List B)
  noted xs = ok xs

  -- A note that is not made, and two.
  pub note_nothing : (s : Bool) (x : B) → noted (note_if s x) ≡ ok [] → s ≡ false
  note_nothing s x h = ground arith

  pub notes_nothing :
      (s t : Bool) (x y : B)
      → noted (note_if s x ++ note_if t y) ≡ ok []
      → (s ≡ false) × (t ≡ false)
  notes_nothing s t x y h = ground arith

module _ {A B : Type 0} where
  -- A step that always appends does not find nothing.
  pub always_found : (m : Result A) (x : A → B) → (m >>= λ a. ok (x a ∷ [])) ≡ ok [] → ⊥
  always_found (ok a) x h = ground arith
  always_found (err e) x h = ground arith

  -- `for key, value in table.items():` with a body that appends and may raise
  unfoldable pub each : (String → A → Result (List B)) → Dict A → Result (List B)
  each body [] = ok []
  each body ((key, v) ∷ table) = body key v >>= λ xs. each body table >>= λ ys. ok (xs ++ ys)

  -- `for row in rows:`
  unfoldable pub each_row : (A → Result (List B)) → List A → Result (List B)
  each_row body [] = ok []
  each_row body (row ∷ rows) = body row >>= λ xs. each_row body rows >>= λ ys. ok (xs ++ ys)

  -- A loop that finds nothing finds nothing at any entry.
  pub each-lookup :
      (body : String → A → Result (List B)) (key : String) (v : A) (table : Dict A)
      → each body table ≡ ok []
      → lookup key table ≡ some v
      → body key v ≡ ok []
  unfolding each lookup
  each-lookup body key v [] h l = ground arith
  each-lookup body key v ((k, w) ∷ table) h l =
      let (first, rest) = nothing_found (body k w) (each body table) h in
      ground (arith, eq_iff k key, each-lookup body key v table rest)

  -- A loop over rows that finds nothing finds nothing at any row.
  pub each_row-All :
      {P : A → Type 0} (body : A → Result (List B)) (rows : List A)
      → ((row : A) → body row ≡ ok [] → P row)
      → each_row body rows ≡ ok []
      → All P rows
  unfolding each_row
  each_row-All body [] p h = tt
  each_row-All body (row ∷ rows) p h =
      let (first, rest) = nothing_found (body row) (each_row body rows) h in
      (p row first, each_row-All body rows p rest)
