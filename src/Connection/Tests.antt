-- ===== src/Connection/Tests.antt =====
-- A table of three connections.
use shroomio.Base.{◌≡◌, refl, ◌≤◌, true, false, some, List, [], ◌∷◌, arith}
use shroomio.Connection.{
  Connection, Manager, connected, zeroed, reset, init, add, remove, get_available_slot,
  get_active_count, no_slot, slot, store, claim, release, set_state,
}
use shroomio.Connection.Table.{
  IsValid, init-IsValid, add-IsValid, Call, adds, removes, run, run-counted, used, Offers,
  get_available_slot-Offers,
}

abbrev history : List Call
history = adds 1 ∷ adds 1 ∷ adds 7 ∷ adds 0 ∷ removes 1 ∷ removes 2 ∷ []

abbrev table : Manager
table = run (init true 3) history

one_left : (get_active_count (some table) ≡ 1) × (get_available_slot table ≡ 1)
unfolding run add remove claim release store slot reset init get_active_count get_available_slot
one_left = (refl, refl)

no_memory : get_available_slot (init false 3) ≡ no_slot
unfolding init get_available_slot
no_memory = refl

add-IsValid_example : IsValid (add (init true 3) 1).0
add-IsValid_example = add-IsValid (init true 3) 1 (init-IsValid true 3 (omega arith))

run-counted_example :
    (get_active_count (some table) ≡ used table)
    × (get_active_count (some table) ≤ table.max_connections)
run-counted_example = run-counted true 3 history (omega arith)

get_available_slot-Offers_example : Offers (init true 3) (get_available_slot (init true 3))
get_available_slot-Offers_example =
    get_available_slot-Offers (init true 3) (init-IsValid true 3 (omega arith))

abbrev peer : Connection
peer = set_state (reset zeroed) connected
