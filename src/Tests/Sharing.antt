-- ===== src/Tests/Sharing.antt =====
-- A reader that holds the old state while a new one is published and the old one waits.
use librefw.Base.{◌≡◌, refl, Bool, true, false, some}
use librefw.State.{Firewall, lfw_state_is_under_attack, lfw_state_set_under_attack}
use librefw.State.Exchange.{
  flag_of, Shared, first_shared, enter_section, load_state, exchange_state, retire_state, Reach,
  starts, exchanges, retires, enters, dereferences,
}
use librefw.State.Exchange.Readers.{lfw_state_is_under_attack-seen}
use librefw.Tests.{one_node_state, one_prefix_state}

abbrev calm : Firewall
calm = record { under_attack = false; bogon = one_prefix_state; hcf = one_node_state }

-- The first state is at address 1.
abbrev entered : Shared
entered = enter_section 0 (first_shared 1)

abbrev dereferenced : Shared
dereferenced = load_state 0 0 entered

abbrev exchanged : Shared
exchanged = exchange_state 2 true false dereferenced

abbrev retired : Shared
retired = retire_state 1 false exchanged

dereferenced-Reach : Reach calm dereferenced
unfolding enter_section load_state
dereferenced-Reach =
    dereferences calm entered 0 0
      (enters calm (first_shared 1) 0 (starts 1 one_prefix_state one_node_state) refl) refl

retired-Reach : Reach (lfw_state_set_under_attack true true calm).0 retired
unfolding enter_section load_state exchange_state
retired-Reach =
    retires (lfw_state_set_under_attack true true calm).0 exchanged 1 false
      (exchanges calm dereferenced 2 true false dereferenced-Reach refl refl) refl

lfw_state_is_under_attack-seen_example :
    (flag_of (retired.cells retired.state)
      ≡ some (lfw_state_is_under_attack (lfw_state_set_under_attack true true calm).0))
    × (v : Bool) × (some false ≡ some v)
    × (flag_of (retired.cells 1) ≡ some v)
unfolding enter_section load_state exchange_state retire_state
lfw_state_is_under_attack-seen_example =
    lfw_state_is_under_attack-seen (lfw_state_set_under_attack true true calm).0 retired 0 0 1
      (some false) retired-Reach refl
