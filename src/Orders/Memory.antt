-- ===== src/Orders/Memory.antt =====
-- The order manager over the in-memory order store of lifecycle.py: what the manager asks of its
-- store, filled by `InMemoryOrderStore`. The broker, the kill switch and the eligibility gate stay
-- a parameter.
use algo_dollar.Base.{
  ◌≤◌, ◌≡◌, refl, String, eq_iff, Bool, true, false, Option, none, some, List, ◌++◌, arith,
}
use algo_dollar.Base.Dict.{insert, lookup-insert}
use algo_dollar.Errors.{Result, ok, err}
use algo_dollar.Double.{Double}
use algo_dollar.Lifecycle.Record.{OrderRecord, to_dict}
use algo_dollar.Lifecycle.Store.{
  FillData, MemoryStore, reserve, get, save, list_open, record_trade, apply_position_delta,
}
use algo_dollar.Lifecycle.Store.Laws.{is_reserved}
use algo_dollar.Orders.Env.{Env, Settings}
use algo_dollar.Orders.Exec.Does.{Saves}
use algo_dollar.Orders.Exec.{World, Log}
use algo_dollar.Orders.History.{Operation, run_operations, placed_once}
use algo_dollar.Orders.Placed.{placed_as, ClaimsOnce}
use algo_dollar.Safety.KillSwitch.{SetKeeps, engage_kill_switch_keeps, KillStore}

-- The store beside the state of everything else.
pub record Outside (F B : Type 0) : Type 0 where
  pub store : MemoryStore F
  pub rest : B

module _ {F B : Type 0} where
  -- A call that returns or raises, on the store alone.
  abbrev store_result :
      {A : Type 0}
      → (A → MemoryStore F → Outside F B)
      → Outside F B
      → Result (A × MemoryStore F)
      → Result A × Outside F B
  store_result f x (err e) = (err e, x)
  store_result f x (ok (a, s)) = (ok a, f a s)

  abbrev saved : Outside F B → Result (MemoryStore F) → Result (Unit {0}) × Outside F B
  saved x (err e) = (err e, x)
  saved x (ok s) = (ok tt, record x { store = s })

  abbrev lift_set :
      Option (B → Result (Unit {0}) × B) → Option (Outside F B → Result (Unit {0}) × Outside F B)
  lift_set none = none
  lift_set (some set) = some (λ x. let (r, b) = set x.rest in (r, record x { rest = b }))

  abbrev lift_switch : KillStore B → KillStore (Outside F B)
  lift_switch ks = record { get = λ x. ks.get x.rest; set = lift_set ks.set }

  abbrev on_rest : {A : Type 0} → (B → A × B) → Outside F B → A × Outside F B
  on_rest f x = let (a, b) = f x.rest in (a, record x { rest = b })

  abbrev lift_stale :
      Option (String → B → Result Bool) → Option (String → Outside F B → Result Bool)
  lift_stale none = none
  lift_stale (some f) = some (λ s x. f s x.rest)

module _ {F B : Type 0} ⦃d : Double F⦄ where
  -- Everything but the store is the parameter's.
  unfoldable pub with_memory_store : Env F B → Env F (Outside F B)
  with_memory_store env = record {
    reserve = λ r x. let (won, s) = reserve r x.store in (ok won, record x { store = s });
    get = λ cid x. get cid x.store;
    save = λ r x. saved x (save r x.store);
    list_open = λ x. list_open x.store;
    record_trade =
        λ cid f x. store_result (λ _ s. record x { store = s }) x (record_trade cid f x.store);
    apply_position_delta = λ symbol exchange product change price x.
        let (p, s) = apply_position_delta symbol exchange product change price x.store in
        (ok p, record x { store = s });
    is_paper_class = env.is_paper_class;
    trading_mode = env.trading_mode;
    supports_trigger = env.supports_trigger;
    view = λ x. env.view x.rest;
    is_stale_at = lift_stale env.is_stale_at;
    get_quote = λ key. on_rest (env.get_quote key);
    place_order = λ args. on_rest (env.place_order args);
    get_orders = on_rest env.get_orders;
    get_positions = on_rest env.get_positions;
    cancel_order = λ id. on_rest (env.cancel_order id);
    get_order_status = λ id. on_rest (env.get_order_status id);
    switch = lift_switch env.switch;
    require_live_eligible = env.require_live_eligible;
    text_of_int = env.text_of_int;
    text_of_float = env.text_of_float;
    sha256_hex = env.sha256_hex;
  }

module _ {F : Type 0} (cid : String) where
  reserve-is_reserved :
      (r : OrderRecord F) (s : MemoryStore F)
      → is_reserved cid s ≡ true
      → is_reserved cid (reserve r s).1 ≡ true
  unfolding reserve is_reserved
  reserve-is_reserved r s h =
      ground (arith, lookup-insert r.client_order_id cid (to_dict r) s.records)

  reserve-claims :
      (r : OrderRecord F) (s : MemoryStore F)
      → r.client_order_id ≡ cid
      → is_reserved cid (reserve r s).1 ≡ true
  unfolding reserve is_reserved
  reserve-claims r s h = ground (
    arith,
    lookup-insert r.client_order_id cid (to_dict r) s.records,
    eq_iff r.client_order_id cid,
  )

  reserve-refuses :
      (r : OrderRecord F) (s : MemoryStore F)
      → r.client_order_id ≡ cid
      → is_reserved cid s ≡ true
      → (reserve r s).0 ≡ false
  unfolding reserve is_reserved
  reserve-refuses r s h k = ground arith

module _ {F B : Type 0} (cid : String) where
  saved-is_reserved :
      (r : OrderRecord F) (x : Outside F B)
      → is_reserved cid x.store ≡ true
      → is_reserved cid (saved x (save r x.store)).1.store ≡ true
  unfolding save is_reserved
  saved-is_reserved r x h =
      ground (arith, lookup-insert r.client_order_id cid (to_dict r) x.store.records)

  trade-is_reserved :
      (c : String) (f : FillData F) (x : Outside F B)
      → is_reserved cid x.store ≡ true
      → is_reserved cid
          (store_result
            (λ (_ : Bool) s. record x { store = s })
            x
            (record_trade c f x.store)).1.store
        ≡ true
  unfolding record_trade is_reserved
  trade-is_reserved c f x h = ground arith

  lift_set_keeps :
      (setter : Option (B → Result (Unit {0}) × B)) (x : Outside F B)
      → is_reserved cid x.store ≡ true
      → SetKeeps (λ (y : Outside F B). is_reserved cid y.store ≡ true) (lift_set setter) x
  lift_set_keeps none x p = tt
  lift_set_keeps (some set) x p = p

module _ {F B : Type 0} ⦃d : Double F⦄ (env : Env F B) where
  pub memory-ClaimsOnce :
      (cid : String) → ClaimsOnce (with_memory_store env) cid (λ x. is_reserved cid x.store ≡ true)
  unfolding with_memory_store apply_position_delta is_reserved
  memory-ClaimsOnce cid = record {
    kept = record {
      by_reserve = λ r x p. reserve-is_reserved cid r x.store p;
      by_save = λ r x p. saved-is_reserved cid r x p;
      by_trade = λ c f x p. trade-is_reserved cid c f x p;
      by_position = λ s e c n v x p. p;
      by_quote = λ s x p. p;
      by_place = λ b x p. p;
      by_orders = λ x p. p;
      by_positions = λ x p. p;
      by_engage = λ x p.
          engage_kill_switch_keeps (lift_switch env.switch) (λ y. is_reserved cid y.store ≡ true) x
            (lift_set_keeps cid env.switch.set x p) p;
      by_cancel = λ i x p. p;
      by_status = λ i x p. p;
    };
    claims = λ r x same won. reserve-claims cid r x.store same;
    refuses = λ r x same p won. let refused = reserve-refuses cid r x.store same p in ground arith;
  }

  -- With the in-memory order store, any sequence of submissions, fills, cancellations, recoveries,
  -- polls and emergency flattens, from any state, places at most one order at the broker under each
  -- client order id.
  pub memory_placed_once :
      (settings : Settings F) (cid : String) (os : List (Operation F)) (w : World F (Outside F B))
      → (log : Log F) × ((run_operations (with_memory_store env) settings os w).calls
          ≡ w.calls ++ log)
        × (placed_as cid log ≤ 1)
  memory_placed_once settings cid os w =
      placed_once (with_memory_store env) settings cid (memory-ClaimsOnce cid) os w

module _ {F : Type 0} (cid : String) where
  save-returns :
      (r : OrderRecord F) (s : MemoryStore F)
      → r.client_order_id ≡ cid
      → is_reserved cid s ≡ true
      → (t : MemoryStore F) × (save r s ≡ ok t) × (is_reserved cid t ≡ true)
  unfolding save is_reserved
  save-returns r s same there = (
    record s { records = insert r.client_order_id (to_dict r) s.records },
    ground arith,
    ground (arith, lookup-insert r.client_order_id cid (to_dict r) s.records),
  )

module _ {F B : Type 0} ⦃d : Double F⦄ (env : Env F B) (cid : String) (P : B → Type 0) where
  -- The writes of a reserved record return, and keep it reserved and everything else as it is.
  pub memory-Saves :
      Saves (with_memory_store env) cid (λ x. (is_reserved cid x.store ≡ true) × P x.rest)
  unfolding with_memory_store
  memory-Saves r x same (there, p) =
      let (t, saved_, kept) = save-returns cid r x.store same there in
      (rw saved_ refl, rw saved_ (kept, p))
