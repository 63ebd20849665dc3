-- ===== src/State.antt =====
-- kernel/src/state.c: the flag `under_attack`, and the module's state as a whole.
pub mod Exchange
use librefw.Base.{Bool, true, false}
use librefw.Base.Int.{ℤ, pos, e_nomem}
use librefw.Bogon.{BgState}
use librefw.Hcf.{HcfState}

-- The static variables of the three subsystems that a hook reads.
pub record Firewall : Type 0 where
  pub under_attack : Bool
  pub bogon : BgState
  pub hcf : HcfState

unfoldable pub lfw_state_is_under_attack : Firewall → Bool
lfw_state_is_under_attack fw = fw.under_attack

-- `allocated` says whether `kzalloc` returned the new state.
unfoldable pub lfw_state_set_under_attack : (allocated new_value : Bool) → Firewall → Firewall × ℤ
lfw_state_set_under_attack false new_value fw = (fw, e_nomem)
lfw_state_set_under_attack true new_value fw = (record fw { under_attack = new_value }, pos 0)

-- The handler of the netlink command: `flag` says whether the message has the flag attribute.
unfoldable pub lfw_state_set_under_attack_nl : (allocated flag : Bool) → Firewall → Firewall × ℤ
lfw_state_set_under_attack_nl allocated flag fw = lfw_state_set_under_attack allocated flag fw
