-- ===== src/Tests/Running.antt =====
-- The theorems on runs of the client, at one command line each.
use librefw.Base.{
  ℕ, ◌≡◌, refl, ap, true, false, none, some, List, [], ◌∷◌, ◌++◌, All, if◌then◌else◌, arith,
}
use librefw.Base.Int.{pos}
use librefw.Mem.{ok}
use librefw.Mem.Tree.{Tree, view}
use librefw.Trie.{leaf, fork}
use librefw.Netlink.{Attribute, scalar, nests, flag_attr}
use librefw.Netlink.Attr
use librefw.Netlink.Cmd
use librefw.Netlink.Buffer.{Draft, nla_put_all}
use librefw.Netlink.Written.{drafted}
use librefw.Hcf.{HcfInfo, blank, HcfState, verdict, hcf_lookup_tree}
use librefw.Hcf.Register.{IsHcf}
use librefw.Hcf.History.{hcf_register_ip_history}
use librefw.State.{Firewall}
use librefw.Commands.{Kernel, lfw_nl_ops}
use librefw.Client.Command.{set_under_attack}
use librefw.Client.Hcf.{Row, pack_rows, set_ip_history}
use librefw.Client.Hcf.Restored.{restored, IsRow}
use librefw.Client.Hcf.Kept.{row_of, is_row, IsUnique, store_rows, latest, set_ip_history-judged}
use librefw.Client.Sockets.{
  Libnl, checked, family_name, default_bufsize, netlink_base, join_group, netlink_multicast_base,
  make_message,
}
use librefw.Client.Sockets.Built.{IsSound, is_some, HasGroup, netlink_multicast_base-IsSound}
use librefw.Client.Main.{
  Subcommand, under_attack, set_hcf, runs, World, exits, log_group, socket, dispatch, listen,
  send_history, run_subcommand, main,
}
use librefw.Client.Main.Sent.{main-under_attack, main-set_hcf}
use librefw.Client
use librefw.Tests.{bump, bump-IsAmple, one_node, one_node_state, one_node-IsHcf, one_prefix_state}
use librefw.Tests.Roomy.{roomy, roomy-IsLawful, same_some, parse, parse-IsParse, empty_draft}
use librefw.Tests.Roomy

abbrev libnl : Libnl roomy
libnl = record {
  Sock = ℕ;
  Msg = List Attribute;
  nl_socket_alloc = some 3;
  genl_connect = λ s. (s, pos 0);
  genl_ctrl_resolve = λ name s. (s, pos 31);
  nl_socket_set_buffer_size = λ rx tx s. (s, pos 0);
  nl_socket_disable_seq_check = λ s. s;
  genl_ctrl_resolve_grp = λ name group s. (s, pos 7);
  nl_socket_add_membership = λ group s. (s, pos 0);
  nl_socket_modify_cb = λ s. (s, pos 0);
  nlmsg_alloc = some empty_draft;
  genlmsg_put = λ family cmd msg. msg;
  nl_send_auto = λ s msg. pos 0;
  nla_parse = λ n msg. (parse msg, pos 0);
  begins_empty = λ family cmd b e. same_some empty_draft b e;
}

netlink_multicast_base-IsSound_example :
    IsSound
      (is_some libnl.nl_socket_alloc)
      (HasGroup roomy libnl)
      (netlink_multicast_base roomy libnl family_name log_group default_bufsize)
netlink_multicast_base-IsSound_example =
    netlink_multicast_base-IsSound roomy libnl family_name log_group default_bufsize

-- A table with 192.0.2.1
abbrev history : List Row
history = record { ip_addr = 0xc000_0201; ttl = 57; hc = 7 } ∷ []

-- A command line with this subcommand, no file, and a database with one row
abbrev world : Subcommand → World roomy libnl
world sub = record {
  parse = λ argv. runs sub;
  ifstream = λ name. none;
  inet_pton = λ text. none;
  stale = 0;
  connects = true;
  rows = some history;
  messages = [];
  attributes = λ msg. msg;
  real_tp = record { tv_sec = 0; tv_nsec = 0 };
  boot_tp = record { tv_sec = 0; tv_nsec = 0 };
}

abbrev flag_msg : Draft
flag_msg = drafted (scalar (flag_attr Attr.under_attack) ∷ []) none

flag_run : main roomy libnl (world (under_attack true)) [] ≡ exits (pos 0) (some (flag_msg, pos 0))
unfolding main run_subcommand dispatch netlink_base checked set_under_attack socket make_message
flag_run = refl

abbrev ample : Kernel
ample = record {
  bogon_cache = bump 0;
  hcf_cache = bump blank;
  buffer_allocated = true;
  tree_allocated = true;
  state_allocated = true;
  stack = 25;
}

abbrev calm : Firewall
calm = record { under_attack = false; bogon = one_prefix_state; hcf = one_node_state }

main-under_attack_example :
    (pos 0 ≡ pos 0)
    × (lfw_nl_ops parse (pos 1) ample Cmd.set_under_attack (roomy.draft flag_msg).complete calm
        ≡ some (record calm { under_attack = true }, pos 0))
main-under_attack_example =
    main-under_attack roomy libnl (world (under_attack true)) [] true (pos 0) flag_msg (pos 0) parse
      (pos 1) ample calm roomy-IsLawful parse-IsParse refl refl flag_run

abbrev history_msg : Draft
history_msg = elim (pack_rows roomy history empty_draft) [
  | Client.packed d ↦ d
  | Client.stopped d ↦ d
  | Client.null_used ↦ empty_draft
]

history_run : main roomy libnl (world set_hcf) [] ≡ exits (pos 0) (some (history_msg, pos 0))
unfolding main run_subcommand listen netlink_multicast_base join_group netlink_base checked
    send_history set_ip_history pack_rows nla_put_all socket make_message
history_run = refl

history-IsRow : All IsRow history
history-IsRow = ((omega arith, omega arith, omega arith), tt)

main-set_hcf_example :
    (st' : HcfState) × (t' : Tree HcfInfo) × (pos 0 ≡ pos 0)
    × (lfw_nl_ops parse (pos 1) ample Cmd.set_hcf_history (roomy.draft history_msg).complete calm
        ≡ some (record calm { hcf = st' }, pos 0))
    × IsHcf st' t'
    × (view t' ≡ restored history (fork blank leaf leaf))
main-set_hcf_example =
    main-set_hcf roomy libnl (world set_hcf) [] (pos 0) history_msg (pos 0) history parse (pos 1)
      ample calm one_node roomy-IsLawful refl refl history_run history-IsRow (bump-IsAmple blank)
      one_node-IsHcf (omega arith)

abbrev insert_or_ignore : Row → List Row → List Row
insert_or_ignore r table = if is_row (row_of r.ip_addr table) then table else table ++ (r ∷ [])

insert_or_ignore-IsUnique : IsUnique insert_or_ignore
insert_or_ignore-IsUnique = record {
  ignored = λ r table e. ap (λ b. if b then table else table ++ (r ∷ [])) e;
  inserted = λ r table e. ap (λ b. if b then table else table ++ (r ∷ [])) e;
}

-- 192.0.2.1 is heard twice.
abbrev news : List Row
news =
    record { ip_addr = 0xc000_0201; ttl = 57; hc = 7 }
    ∷ record { ip_addr = 0xc000_0201; ttl = 44; hc = 20 }
    ∷ []

news_sent :
    set_ip_history roomy Roomy.socket (store_rows insert_or_ignore [] news)
    ≡ Client.sent history_msg (pos 0)
unfolding set_ip_history pack_rows nla_put_all store_rows row_of
news_sent = refl

set_ip_history-judged_example :
    (st' : HcfState) × (row_of 0xc000_0201 (store_rows insert_or_ignore [] news)
      ≡ row_of 0xc000_0201 news)
    × (hcf_register_ip_history
          (bump blank)
          25
          (nests (roomy.draft history_msg).complete)
          one_node_state
        ≡ some (st', pos 0))
    × (hcf_lookup_tree 0xc000_0201 44 st'
        ≡ ok (verdict 44 (latest 0xc000_0201 none (store_rows insert_or_ignore [] news))) st'.mem)
set_ip_history-judged_example =
    set_ip_history-judged roomy Roomy.socket insert_or_ignore news history_msg (pos 0) (bump blank)
      25 one_node_state one_node 0xc000_0201 44 insert_or_ignore-IsUnique roomy-IsLawful
      ((omega arith, omega arith, omega arith), ((omega arith, omega arith, omega arith), tt))
      news_sent (bump-IsAmple blank) one_node-IsHcf (omega arith) (omega arith)
