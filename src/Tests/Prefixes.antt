-- ===== src/Tests/Prefixes.antt =====
-- The theorems on the bogon filter, on address prefixes and on the filter hook, at one state.
use librefw.Base.{ℕ, ◌-◌, ◌/◌, ◌^◌, ◌≡◌, ◌≢◌, true, none, some, ◌++◌, ◌∷◌, [], ◌==◌, arith}
use librefw.Base.Int.{ℤ, is_pos}
use librefw.Mem.{ok, null}
use librefw.Mem.Tree.{Tree, nil, root, view, Owns, Disjoint}
use librefw.Trie.{leaf, fork}
use librefw.Word.{in4_get_masked}
use librefw.Word.Mask.{masked-quotient}
use librefw.Bogon.{BgState, lfw_load_bg_tree, lfw_lookup_bg_tree}
use librefw.Bogon.Load.{IsBogon, loaded, lfw_load_bg_tree-loaded}
use librefw.Bogon.Cover.{covered, lookup-covered}
use librefw.State.{Firewall}
use librefw.Hooks.{Packet, eth_p_ip, ipproto_tcp, lfw_filter_ipv4_hook_fn}
use librefw.Hooks.Filter.{tcp_header, verdict_due, lfw_filter_ipv4_hook_fn-unwanted}
use librefw.Tests.{
  bump, bump-IsAmple, one_node, one_node_state, one_node-IsHcf, no_list, no_list-IsBogon,
  one_prefix, one_prefix_state, one_prefix-IsBogon, private_nets,
}

lookup-covered_example :
    (st' : BgState) × (v : ℤ) × (lfw_load_bg_tree (bump 0) true private_nets no_list ≡ some st')
    × (lfw_lookup_bg_tree 0xc0a8_0001 st' ≡ ok v st'.mem)
    × (is_pos v ≡ covered 0xc0a8_0001 private_nets)
lookup-covered_example =
    lookup-covered (bump 0) private_nets no_list nil 0xc0a8_0001 (bump-IsAmple 0)
      (omega arith, (omega arith, tt)) no_list-IsBogon (omega arith)

lfw_load_bg_tree-loaded_example :
    (st' : BgState) × (t' : Tree ℕ) × (lfw_load_bg_tree (bump 0) true private_nets one_prefix_state
      ≡ some st')
    × IsBogon st' t'
    × (view t' ≡ loaded private_nets (fork 0 leaf leaf))
    × (root t' ≢ null)
    × Owns st'.mem one_prefix
    × Disjoint one_prefix t'
    × (st'.rcu ≡ one_prefix_state.rcu ++ one_prefix_state.root ∷ [])
lfw_load_bg_tree-loaded_example =
    lfw_load_bg_tree-loaded (bump 0) private_nets one_prefix_state one_prefix (bump-IsAmple 0)
      (omega arith, (omega arith, tt)) one_prefix-IsBogon

masked-quotient_example :
    (in4_get_masked 0xc0a8_0001 16 == in4_get_masked 0xc0a8_ff01 16)
    ≡ (0xc0a8_0001 / 2 ^ (32 - 16) == 0xc0a8_ff01 / 2 ^ (32 - 16))
masked-quotient_example =
    masked-quotient 0xc0a8_0001 0xc0a8_ff01 16 (omega arith) (omega arith) (omega arith)

abbrev attacked : Firewall
attacked = record { under_attack = true; bogon = one_prefix_state; hcf = one_node_state }

-- A TCP segment from 10.0.0.1
abbrev segment : Packet
segment = record {
  h_proto = some eth_p_ip;
  iph =
      some (record { protocol = ipproto_tcp; saddr = 0x0100_000a; daddr = 0x0200_000a; ttl = 60 });
  ports = none;
}

lfw_filter_ipv4_hook_fn-unwanted_example :
    lfw_filter_ipv4_hook_fn attacked segment
    ≡ some (verdict_due one_prefix one_node true (tcp_header segment))
lfw_filter_ipv4_hook_fn-unwanted_example =
    lfw_filter_ipv4_hook_fn-unwanted attacked segment one_prefix one_node one_prefix-IsBogon
      one_node-IsHcf
