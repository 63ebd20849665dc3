-- ===== src/Netlink/Family.antt =====
-- kernel/src/nl.c: the netlink family and its registration.
use librefw.Base.{ℕ, List, [], ◌∷◌, if◌then◌else◌}
use librefw.Base.Int.{ℤ, pos, is_nonzero}
use librefw.Netlink.Cmd

-- `struct genl_family` without its policy and handlers: the commands that have a handler, and the
-- names of the multicast groups by their number. Names are lists of bytes.
pub record GenlFamily : Type 0 where
  pub name : List ℕ
  pub version : ℕ
  pub maxattr : ℕ
  pub ops : List ℕ
  pub mcgrps : List (List ℕ)

-- "librefw", with the groups "log", "hcf" and "pkt_filter_log"
unfoldable pub lfw_nl_family : GenlFamily
lfw_nl_family = record {
  name = 108 ∷ 105 ∷ 98 ∷ 114 ∷ 101 ∷ 102 ∷ 119 ∷ [];
  version = 1;
  maxattr = 24;
  ops = Cmd.set_bogon ∷ Cmd.set_under_attack ∷ Cmd.set_hcf_history ∷ [];
  mcgrps =
      (108 ∷ 111 ∷ 103 ∷ [])
      ∷ (104 ∷ 99 ∷ 102 ∷ [])
      ∷ (112 ∷ 107 ∷ 116 ∷ 95 ∷ 102 ∷ 105 ∷ 108 ∷ 116 ∷ 101 ∷ 114 ∷ 95 ∷ 108 ∷ 111 ∷ 103 ∷ [])
      ∷ [];
}

-- By the code of `genl_register_family`
unfoldable pub lfw_nl_init : (genl_register_family : GenlFamily → ℤ) → ℤ
lfw_nl_init genl_register_family =
    let ret = genl_register_family lfw_nl_family in if is_nonzero ret then ret else pos 0
