-- ===== src/Tests/Messages.antt =====
-- The theorems on the netlink handlers, on freeing and on learning, at one state.
use librefw.Base.{
  ℕ, ◌+◌, ◌/◌, ◌^◌, ◌<◌, ◌≡◌, All, refl, true, false, ◌||◌, not, Option, none, some, List, [], ◌∷◌,
  ltb, leb, length, arith, if◌then◌else◌,
}
use librefw.Base.Int.{ℤ, pos, is_pos}
use librefw.Mem.{Mem, ok, node_of}
use librefw.Mem.Tree.{Tree, nil, node, view}
use librefw.Mem.Free.{Freed}
use librefw.Netlink.{Nest}
use librefw.Netlink.Attr
use librefw.Trie.{leaf, fork}
use librefw.Word.{bits, get_unaligned_be32}
use librefw.Bogon.{
  BgState, set_prefix, set_prefix_field, lfw_bogon_set, lfw_load_bg_tree, lfw_lookup_bg_tree,
  lfw_free_bg_tree,
}
use librefw.Bogon.Spec.{marked}
use librefw.Bogon.Load.{IsPrefix, IsBogon, loaded}
use librefw.Bogon.Cover.{covered}
use librefw.Bogon.Set.{decoded, lfw_bogon_set-covered}
use librefw.Bogon.Free.{load-grace_period}
use librefw.Hcf.{
  HcfInfo, blank, Task, IpCtx, HcfState, hop_count, abs_diff, hcf_swap_tree, hcf_register_ip_work,
}
use librefw.Hcf.Register.{IsHcf}
use librefw.Hcf.Swap.{hcf_swap_tree-Freed}
use librefw.Hcf.History.{hcf_register_ip_history}
use librefw.Hcf.History.Stored.{stored, hcf_register_ip_history-stored}
use librefw.State.{Firewall}
use librefw.Hooks.{nf_drop, nf_accept, lfw_filter_ipv4_hook_fn, lfw_hc_learn_ipv4_hook_fn}
use librefw.PacketLog.{Cpu, count_packet}
use librefw.Base.{inr}
use librefw.Bogon.Long.{has_long}
use librefw.Bogon.Crash.{IsHarmful, lfw_bogon_set-undefined}
use librefw.Hooks.Learn.{tcp_packet, logged_event, learn-filter}
use librefw.Tests.{
  bump, bump-IsAmple, one_node, one_node_state, one_node-IsHcf, one_prefix, one_prefix_state,
  one_prefix-IsBogon, private_nets,
}

-- 10.0.0.0/8
abbrev one_net : List Nest
one_net =
    record {
      nest_type = Attr.ip_prefix;
      nested =
          record { nla_type = Attr.n_ip_addr; nla_len = 4; word = 0x0a }
          ∷ record { nla_type = Attr.n_ip_prefix_len; nla_len = 1; word = 8 }
          ∷ [];
    }
    ∷ []

one_net-decoded : decoded one_net ≡ record { ip_prefix = 10; ip_prefix_len = 8 } ∷ []
unfolding decoded set_prefix set_prefix_field
one_net-decoded = refl

one_net-IsPrefix : All IsPrefix (decoded one_net)
unfolding decoded set_prefix set_prefix_field
one_net-IsPrefix = (omega arith, tt)

one_net_announced : 0 < length (decoded one_net) + 0
unfolding decoded
one_net_announced = omega arith

lfw_bogon_set-covered_example :
    (st' : BgState) × (v : ℤ) × (lfw_bogon_set
        (bump 0)
        true
        true
        (length (decoded one_net) + 0)
        one_net
        one_prefix_state
      ≡ some (st', pos 0))
    × (lfw_lookup_bg_tree 0x0a00_0001 st' ≡ ok v st'.mem)
    × (is_pos v ≡ (covered 0x0a00_0001 (decoded one_net) || ltb 0 0))
lfw_bogon_set-covered_example =
    lfw_bogon_set-covered (bump 0) one_net 0 one_prefix_state one_prefix 0x0a00_0001
      (bump-IsAmple 0) one_net_announced one_net-IsPrefix one_prefix-IsBogon (omega arith)

load-grace_period_example :
    (st' : BgState) × (t' : Tree ℕ) × (m : Mem ℕ) × (lfw_load_bg_tree
        (bump 0)
        true
        private_nets
        one_prefix_state
      ≡ some st')
    × (lfw_free_bg_tree 34 one_prefix_state.root st'.mem ≡ ok tt m)
    × Freed st'.mem one_prefix m
    × IsBogon (record { root = st'.root; mem = m; rcu = one_prefix_state.rcu }) t'
    × (view t' ≡ loaded private_nets (fork 0 leaf leaf))
load-grace_period_example =
    load-grace_period (bump 0) 34 private_nets one_prefix_state one_prefix (bump-IsAmple 0)
      (omega arith, (omega arith, tt)) one_prefix-IsBogon (omega arith)

-- A second tree of one node, next to the first.
abbrev two_trees_state : HcfState
two_trees_state = record {
  tree = 1;
  mem =
      (1, some (node_of 0 0 blank))
      ∷ (2, some (node_of 0 0 blank))
      ∷ (3, some (node_of 0 0 blank))
      ∷ [];
  rcu = 2 ∷ [];
}

two_trees-IsHcf : IsHcf two_trees_state one_node
two_trees-IsHcf = record {
  rooted = refl;
  owned = ((λ e. omega (arith, e)), refl, refl, refl, (λ a i. refl), tt, tt);
  pending = ((λ e. omega (arith, e)), (λ e. ground (arith, e)), refl, refl, tt);
}

abbrev second_tree : Tree HcfInfo
second_tree = node 3 blank nil nil

hcf_swap_tree-Freed_example :
    (st' : HcfState) × (hcf_swap_tree 25 3 two_trees_state ≡ some st')
    × IsHcf st' second_tree
    × Freed two_trees_state.mem one_node st'.mem
    × (st'.rcu ≡ two_trees_state.rcu)
hcf_swap_tree-Freed_example =
    hcf_swap_tree-Freed 25 two_trees_state one_node second_tree two_trees-IsHcf
      ((λ e. omega (arith, e)), refl, refl, refl, (λ a i. refl), tt, tt) (λ a i. ground (arith, i))
      (refl, tt) (omega arith)

-- 192.0.2.1 with TTL 57 and hop count 7
abbrev one_host : List Nest
one_host =
    record {
      nest_type = Attr.hcf_history;
      nested =
          record { nla_type = Attr.hcf_history_ip; nla_len = 4; word = 0xc000_0201 }
          ∷ record { nla_type = Attr.hcf_history_ttl; nla_len = 1; word = 57 }
          ∷ record { nla_type = Attr.hcf_history_hc; nla_len = 1; word = 7 }
          ∷ [];
    }
    ∷ []

hcf_register_ip_history-stored_example :
    (st' : HcfState) × (t' : Tree HcfInfo) × (m : Mem HcfInfo) × (hcf_register_ip_history
        (bump blank)
        25
        one_host
        one_node_state
      ≡ some (st', pos 0))
    × IsHcf st' t'
    × (view t' ≡ stored one_host (fork blank leaf leaf))
    × Freed m one_node st'.mem
    × (st'.rcu ≡ one_node_state.rcu)
hcf_register_ip_history-stored_example =
    hcf_register_ip_history-stored (bump blank) 25 one_host one_node_state one_node
      (bump-IsAmple blank) one_node-IsHcf (omega arith)

abbrev quiet : Firewall
quiet = record { under_attack = false; bogon = one_prefix_state; hcf = one_node_state }

same_network : get_unaligned_be32 0x0902_00c0 / 2 ^ 8 ≡ get_unaligned_be32 0x0102_00c0 / 2 ^ 8
unfolding get_unaligned_be32
same_network = refl

abbrev first_cpu : Cpu
first_cpu = record { packet_counter = 0; full_pages_only = false; queued = false }

-- 192.0.2.1 is learnt with TTL 57, and 192.0.2.9 is seen with TTL 55.
learn-filter_example :
    (task : Task) × (st' : HcfState) × (log : Option IpCtx) × (lfw_hc_learn_ipv4_hook_fn true quiet
        (tcp_packet 0x0102_00c0 0x0101_00c0 57 none)
        first_cpu
      ≡ (
        nf_accept,
        some task,
        count_packet first_cpu,
        logged_event true 0x0102_00c0 0x0101_00c0 57 none,
      ))
    × (hcf_register_ip_work (bump blank) task quiet.hcf ≡ some (st', log))
    × (lfw_filter_ipv4_hook_fn
          (record { under_attack = true; bogon = quiet.bogon; hcf = st' })
          (tcp_packet 0x0902_00c0 0x0101_00c0 55 none)
        ≡ some (
            if marked (view one_prefix) (bits (get_unaligned_be32 0x0902_00c0) 0 32)
              || not (leb (abs_diff (hop_count 55) (hop_count 57)) 2)
            then nf_drop
            else nf_accept))
learn-filter_example =
    learn-filter (bump blank) true quiet first_cpu 0x0102_00c0 0x0101_00c0 57 none 0x0902_00c0
      0x0101_00c0 55 none one_prefix 1 blank nil nil (bump-IsAmple blank) one_prefix-IsBogon
      one_node-IsHcf refl same_network (omega arith) (omega arith)

-- 10.0.0.0/8, where a length of 40 is sent
abbrev long_net : List Nest
long_net =
    record {
      nest_type = Attr.ip_prefix;
      nested =
          record { nla_type = Attr.n_ip_addr; nla_len = 4; word = 0x0a }
          ∷ record { nla_type = Attr.n_ip_prefix_len; nla_len = 1; word = 40 }
          ∷ [];
    }
    ∷ []

long_net-IsHarmful : IsHarmful 1 long_net
unfolding decoded set_prefix set_prefix_field has_long
long_net-IsHarmful = inr (omega arith, refl)

lfw_bogon_set-undefined_example :
    lfw_bogon_set (bump 0) true true 1 long_net one_prefix_state ≡ none
lfw_bogon_set-undefined_example =
    lfw_bogon_set-undefined (bump 0) 1 long_net one_prefix_state (bump-IsAmple 0) (omega arith)
      long_net-IsHarmful
