-- ===== src/Examples/Client.antt =====
-- A client with the endpoints "a", "ab" and "b".
use databend_meta.Common.{
  ◌≡◌, ◌≢◌, ◌≤◌, ◌<◌, refl, arith, Option, some, List, [], ◌∷◌, Text, length,
}
use databend_meta.Client.Endpoints.{
  Endpoints, new, set_current, replace_nodes, choose_next, current_or_next, rotate_failing_endpoint,
}
use databend_meta.Client.Chosen.{IsValid, Kept, operations-IsValid, new-IsValid}
use databend_meta.Client.Rotation.{Visits, choose_times-Visits}
use databend_meta.Client.Failing.{rotate_failing_endpoint-once}
use databend_meta.Examples.{key_a, key_ab, key_b}

abbrev three : Endpoints
unfolding new
three = new (key_b ∷ key_a ∷ key_ab ∷ [])

abbrev at_ab : Endpoints
unfolding three set_current
at_ab = (set_current (some key_ab) three).1

at_ab-IsValid : IsValid at_ab
unfolding at_ab three
at_ab-IsValid =
    (operations-IsValid three (new-IsValid (key_b ∷ key_a ∷ key_ab ∷ []))).0 (some key_ab)

operations-IsValid_example :
    ((current : Option Text) → IsValid (set_current current at_ab).1)
    × (((nodes : List Text) → IsValid (replace_nodes nodes at_ab))
        × (0 < length at_ab.nodes
            → Kept at_ab (choose_next at_ab) × Kept at_ab (current_or_next at_ab)))
operations-IsValid_example = operations-IsValid at_ab at_ab-IsValid

choose_times-Visits_example : Visits at_ab key_a
unfolding at_ab databend_meta.Common.text_eq databend_meta.Keys.Order.text_ltb
choose_times-Visits_example = choose_times-Visits at_ab 0 key_a at_ab-IsValid refl

rotate_failing_endpoint-once_example :
    (e' : Endpoints) × ((rotate_failing_endpoint (some key_ab) at_ab ≡ some e')
      × ((e'.current ≢ some key_ab) × (rotate_failing_endpoint (some key_ab) e' ≡ some e')))
unfolding at_ab databend_meta.Common.text_eq databend_meta.Keys.Order.text_ltb
rotate_failing_endpoint-once_example =
    rotate_failing_endpoint-once at_ab key_ab at_ab-IsValid refl (omega arith)
