-- ===== src/Examples/Events.antt =====
-- The event bus on concrete inputs.
use wmux.Prelude.{◌≡◌, refl, List, [], ◌∷◌, none, some, codes, Returns, ◌↔◌, ◌<◌, ◌≤◌}
use wmux.Events.{Event, new_bus}
use wmux.Events.Names.{marshal, unmarshal, unmarshal-marshal_iff}
use wmux.Events.Wellformed.{AllOpen}
use wmux.Events.Runs.{
  Op, subscribes, publishes, unsubscribes, receives, closes, run, run-new_bus_safe,
}

abbrev created : Event
created = record { type = 3; session_id = codes "a"; payload = [] }

abbrev calls : List Op
calls =
    subscribes none
    ∷ subscribes (some (4 ∷ []))
    ∷ publishes created
    ∷ unsubscribes 0
    ∷ unsubscribes 0
    ∷ receives 0
    ∷ closes
    ∷ publishes created
    ∷ unsubscribes 1
    ∷ []

run-new_bus_safe_example : Returns (λ c. AllOpen c.cell c.next c.subs) (run calls new_bus)
run-new_bus_safe_example = run-new_bus_safe calls (refl, (refl, tt))

unmarshal-marshal_iff_example :
    (unmarshal (codes "\"resize\"") ≡ some 7)
    ↔ ((marshal 7 ≡ codes "\"resize\"") × (0 < 7) × (7 ≤ 15))
unmarshal-marshal_iff_example = unmarshal-marshal_iff (codes "\"resize\"") 7
