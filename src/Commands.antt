-- ===== src/Commands.antt =====
-- kernel/src/nl.c: `lfw_nl_ops`, the commands of the netlink family and their handlers.
pub mod Admitted
pub mod Answered
use librefw.Base.{ℕ, Bool, true, false, Option, none, some, List, ◌==◌, if◌then◌else◌}
use mathlib.Core.Option
use librefw.Base.Int.{ℤ}
use librefw.Mem.{Cache}
use librefw.Netlink.{Nla, Attribute, nests, nla_get_u32}
use librefw.Netlink.Attr
use librefw.Netlink.Cmd
use librefw.Bogon.{lfw_bogon_set}
use librefw.Hcf.{HcfInfo}
use librefw.Hcf.History.{hcf_register_ip_history}
use librefw.State.{Firewall, lfw_state_set_under_attack_nl}

-- What the handlers take of the kernel: the two slab caches, whether the allocations of the prefix
-- buffer, the bogon tree and the new state succeed, and the stack for freeing a tree.
pub record Kernel : Type 0 where
  pub bogon_cache : Cache ℕ
  pub hcf_cache : Cache HcfInfo
  pub buffer_allocated : Bool
  pub tree_allocated : Bool
  pub state_allocated : Bool
  pub stack : ℕ

-- `nla_get_u32_default(attr, 0)` and `nla_get_flag(attr)`
abbrev pub u32_or_zero : Option Nla → ℕ
u32_or_zero none = 0
u32_or_zero (some a) = nla_get_u32 a

abbrev pub is_some : Option Nla → Bool
is_some none = false
is_some (some a) = true

-- The handlers by command: `info->attrs` is what `nla_parse` gives, and the handlers walk the nested
-- attributes. For other commands the kernel calls no handler and answers `unknown`. `none` is a
-- crash.
unfoldable pub lfw_nl_ops :
    (nla_parse : List Attribute → ℕ → Option Nla) (unknown : ℤ) (k : Kernel)
    → ℕ
    → List Attribute
    → Firewall
    → Option (Firewall × ℤ)
lfw_nl_ops nla_parse unknown k cmd attrs fw =
    if cmd == Cmd.set_bogon
    then Option.map (λ (st, ret). (record fw { bogon = st }, ret))
        (lfw_bogon_set k.bogon_cache k.buffer_allocated k.tree_allocated
          (u32_or_zero (nla_parse attrs Attr.num_ip_prefix)) (nests attrs) fw.bogon)
    else if cmd == Cmd.set_under_attack
    then some (
        lfw_state_set_under_attack_nl k.state_allocated
          (is_some (nla_parse attrs Attr.under_attack)) fw)
    else if cmd == Cmd.set_hcf_history
    then Option.map (λ (st, ret). (record fw { hcf = st }, ret))
        (hcf_register_ip_history k.hcf_cache k.stack (nests attrs) fw.hcf)
    else some (fw, unknown)
