-- ===== src/Tests/Safety.antt =====
-- Runs of the kill switch, the duplicate gate and the whole validation.
use algo_dollar.Base.{Option, ◌≡◌, refl, true, ◌⊎◌, ◌↔◌, some, List, [], ◌∷◌, pos, All}
use algo_dollar.Base.Member.{contains}
use algo_dollar.Double.{Units, units_double}
use algo_dollar.Errors.{ok}
use algo_dollar.Orders.Submit.{check_of}
use algo_dollar.Safety.Duplicates.{
  OpenOrder, order, check_duplicate_order, check_duplicate_order_iff, IsClear,
}
use algo_dollar.Safety.KillSwitch.{
  StoreValue, IsFalseObject, in_falsey, engage_kill_switch, engage_kill_switch-active,
  is_kill_switch_active,
}
use algo_dollar.Safety.Conditions.{IsPermitted}
use algo_dollar.Safety.Permits.{validate_order_iff}
use algo_dollar.Safety.Validate.{
  OrderCheck, validate_order, validate_order_lem, all_passed, failures, gates_of,
}
use algo_dollar.Tests.Toy.{
  Toy, toy_switch, toy_view, toy_env, toy_settings, toy_signal, toy_account, toy_outside,
}

abbrev quiet_toy : Toy
quiet_toy = toy_outside.rest

engage_kill_switch-active_example :
    let k = (engage_kill_switch toy_switch quiet_toy).1 in
    (is_kill_switch_active toy_switch k ≡ true)
    ⊎ ((v : Option StoreValue) × (toy_switch.get k ≡ ok v) × IsFalseObject v)
unfolding engage_kill_switch in_falsey contains
engage_kill_switch-active_example = engage_kill_switch-active toy_switch quiet_toy refl

abbrev other_orders : List OpenOrder
other_orders = order (some "TCS") (some "breakoutcd") (some "OPEN") ∷ []

check_duplicate_order_iff_example :
    (check_duplicate_order "TCS" "momentum" other_orders (some "momentumab") ≡ ok tt)
    ↔ All (IsClear "TCS" "momentum" (some "momentumab")) other_orders
check_duplicate_order_iff_example =
    check_duplicate_order_iff "TCS" "momentum" other_orders (some "momentumab")

abbrev toy_check : OrderCheck Units
toy_check =
    check_of toy_env toy_settings toy_signal (pos 10) toy_account (some (pos 100)) (some (pos 1000))

validate_order_lem_example :
    let r = validate_order toy_switch true quiet_toy toy_view toy_check in
    (r.passed ≡ all_passed (gates_of toy_switch true quiet_toy toy_view toy_check))
    × (r.failed_checks ≡ failures (gates_of toy_switch true quiet_toy toy_view toy_check))
validate_order_lem_example = validate_order_lem toy_switch true quiet_toy toy_view toy_check

validate_order_iff_example :
    ((validate_order toy_switch true quiet_toy toy_view toy_check).passed ≡ true)
    ↔ IsPermitted toy_switch true quiet_toy toy_view toy_check
validate_order_iff_example = validate_order_iff toy_switch true quiet_toy toy_view toy_check
