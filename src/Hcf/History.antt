-- ===== src/Hcf/History.antt =====
-- `hcf_register_ip_history`: a new tree from the addresses in a netlink message.
pub mod Stored
use mathlib.Core.Option
use librefw.Base.{ℕ, zero, suc, ◌+◌, Option, none, some, List, [], ◌∷◌, ◌==◌, if◌then◌else◌}
use librefw.Base.Int.{ℤ, pos, e_nomem}
use librefw.Mem.{
  Ptr, null, ok, fault, Cmd, pure, ◌>>=◌, ◌>>◌, child, load, set_child, set_info, Cache,
}
use librefw.Netlink.{Nla, Nest, nla_get_u32, nla_get_u8}
use librefw.Netlink.Attr
use librefw.Word.{bit}
use librefw.Hcf.{HcfInfo, HcfState, hcf_create_node, hcf_swap_tree}

-- The variables of one round of the loop over the message.
pub record Entry : Type 0 where
  pub ip_addr : ℕ
  pub ttl : ℕ
  pub hc : ℕ

-- The `switch` on one nested attribute. An address of another length than 4 is skipped.
unfoldable pub set_entry_field : Nla → Entry → Entry
set_entry_field a e =
    if a.nla_type == Attr.hcf_history_ip
    then if a.nla_len == 4 then record e { ip_addr = nla_get_u32 a } else e
    else if a.nla_type == Attr.hcf_history_ttl
    then record e { ttl = nla_get_u8 a }
    else if a.nla_type == Attr.hcf_history_hc
    then record e { hc = nla_get_u8 a }
    else e

unfoldable pub read_entry : List Nla → Entry → Entry
read_entry [] e = e
read_entry (a ∷ as') e = read_entry as' (set_entry_field a e)

-- The walk to the leaf of an address, by the number of bits above bit 7 that remain.
unfoldable pub history_walk : Cache HcfInfo → ℕ → ℕ → Ptr → ℕ → Cmd HcfInfo (Ptr × ℕ)
history_walk k ip zero runner new_nodes = pure (runner, new_nodes)
history_walk k ip (suc n) runner new_nodes = do
  c ← load runner
  if child c (bit ip (n + 8)) == null
      then (do
        q ← hcf_create_node k
        set_child runner (bit ip (n + 8)) q
        history_walk k ip n q (new_nodes + 1))
      else history_walk k ip n (child c (bit ip (n + 8))) new_nodes

-- One round: the entry is stored below `new_tree`.
unfoldable pub insert_entry : Cache HcfInfo → Entry → Ptr → ℕ → Cmd HcfInfo ℕ
insert_entry k e new_tree new_nodes = do
  (runner, new_nodes') ← history_walk k e.ip_addr 24 new_tree new_nodes
  set_info runner (record { hc = e.hc; ttl = e.ttl })
  pure new_nodes'

abbrev pub no_entry : Entry
no_entry = record { ip_addr = 0; ttl = 0; hc = 0 }

-- The loop over the attributes of the message; it returns the number of nodes created.
unfoldable pub insert_history : Cache HcfInfo → List Nest → Ptr → ℕ → Cmd HcfInfo ℕ
insert_history k [] new_tree new_nodes = pure new_nodes
insert_history k (a ∷ as') new_tree new_nodes =
    if a.nest_type == Attr.hcf_history
    then (do
      new_nodes' ← insert_entry k (read_entry a.nested no_entry) new_tree new_nodes
      insert_history k as' new_tree new_nodes')
    else insert_history k as' new_tree new_nodes

-- The handler: the state and the return code. `fuel` is the stack for the freeing of the old tree;
-- `none` is a crash.
unfoldable pub hcf_register_ip_history :
    Cache HcfInfo → ℕ → List Nest → HcfState → Option (HcfState × ℤ)
hcf_register_ip_history k fuel attrs st = elim (hcf_create_node k st.mem) [
  | fault ↦ none
  | ok new_tree m ↦
      if new_tree == null
      then some (record st { mem = m }, e_nomem)
      else elim (insert_history k attrs new_tree 0 m) [
        | fault ↦ none
        | ok _ m' ↦
            Option.map (λ st'. (st', pos 0)) (hcf_swap_tree fuel new_tree (record st { mem = m' }))
      ]
]
