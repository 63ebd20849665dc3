-- ===== src/Tests/Delivery.antt =====
-- The theorems on messages between the client and the kernel module, at one message.
use librefw.Base.{
  ℕ, ◌≤◌, ◌≡◌, refl, true, false, Option, some, List, [], ◌∷◌, map, length, take, All, arith,
}
use librefw.Base.Int.{pos}
use librefw.Mem.Tree.{Tree, view}
use librefw.Netlink.{nests}
use librefw.Netlink.Cmd
use librefw.Netlink.Buffer.{Draft}
use librefw.Netlink.Multicast.{sent}
use librefw.Trie.{leaf, fork}
use librefw.Hcf.{HcfInfo, blank, HcfState}
use librefw.Hcf.Register.{IsHcf}
use librefw.Hcf.History.{hcf_register_ip_history}
use librefw.Hcf.Log.{hcf_log_new_ip, hcf_build_log_msg}
use librefw.Hcf.Log.Heard.{hcf_log_new_ip-received}
use librefw.State.{Firewall}
use librefw.Commands.{Kernel}
use librefw.Client.{Sending, nl_ok}
use librefw.Client
use librefw.Client.Hcf.{Row, on_message_received, pack_rows, set_ip_history}
use librefw.Client.Hcf.Restored.{restored, set_ip_history-restored}
use librefw.Client.Text.{
  Text, stoi, stoi_at, skip_space, digits, digits_from, before_slash, after_slash, find_slash,
}
use librefw.Client.Text.Decimal.{decimal}
use librefw.Client.Command.{lines, pack_lines, put_count, s_addr, send_bogon_list}
use librefw.Client.Command.Taken.{Entry, entry_line, IsEntry, CountRefused, IsFilled}
use librefw.Base.{◌⊎◌}
use librefw.Netlink.Cmd
use librefw.Client.Command.Filtered.{prefixes, Handles, send_bogon_list-filtered}
use librefw.Netlink.Buffer.{nla_put_all, nla_build}
use librefw.Netlink.Multicast.{lfw_make_multicast_msg}
use librefw.Tests.{
  bump, bump-IsAmple, one_node, one_node_state, one_node-IsHcf, one_prefix, one_prefix_state,
  one_prefix-IsBogon,
}
use librefw.Base.{Bool, false, ◌==◌, leb, ltb}
use librefw.Netlink.{Nla}
use librefw.Netlink.Policy.{
  AttrType, nla_unspec, nla_u8, nla_u32, nla_u64, nla_be16, nla_be32, nla_flag, nla_nul_string,
  nla_binary, IsCheck, Passes,
}
use librefw.Log.{lfw_build_log_msg, lfw_log}
use librefw.Log.Heard.{lfw_log-printed}
use librefw.Client.Log.{log_message_received}
use librefw.Client.Admitted.{send_bogon_list-Passes, set_ip_history-Passes}
use librefw.Tests.Roomy.{roomy, roomy-IsLawful, genl, socket, parse, parse-IsParse, empty_draft}

-- The news of 192.0.2.1 with TTL 57 and hop count 7
abbrev news : Draft
news =
    (hcf_build_log_msg roomy (record { source_ip = 0xc000_0201; ttl = 57; hc = 7 }) empty_draft).0

news_sent : hcf_log_new_ip roomy genl 4000 0xc000_0201 57 7 ≡ (sent Cmd.group_hcf news, pos 0)
unfolding hcf_log_new_ip lfw_make_multicast_msg hcf_build_log_msg nla_build nla_put_all
news_sent = refl

hcf_log_new_ip-received_example :
    (Cmd.group_hcf ≡ Cmd.group_hcf)
    × (on_message_received (parse (roomy.draft news).complete)
        ≡ some (record { ip_addr = 0xc000_0201; ttl = 57; hc = 7 }, nl_ok))
hcf_log_new_ip-received_example =
    hcf_log_new_ip-received roomy genl parse 4000 0xc000_0201 57 7 Cmd.group_hcf news (pos 0)
      roomy-IsLawful parse-IsParse (omega arith) (omega arith) (omega arith) news_sent

-- A table with 192.0.2.1
abbrev history : List Row
history = record { ip_addr = 0xc000_0201; ttl = 57; hc = 7 } ∷ []

abbrev history_msg : Draft
history_msg = elim (pack_rows roomy history empty_draft) [
  | Client.packed d ↦ d
  | Client.stopped d ↦ d
  | Client.null_used ↦ empty_draft
]

history_sent : set_ip_history roomy socket history ≡ Client.sent history_msg (pos 0)
unfolding set_ip_history pack_rows nla_put_all
history_sent = refl

set_ip_history-restored_example :
    (st' : HcfState) × (t' : Tree HcfInfo) × (hcf_register_ip_history
        (bump blank)
        25
        (nests (roomy.draft history_msg).complete)
        one_node_state
      ≡ some (st', pos 0))
    × IsHcf st' t'
    × (view t' ≡ restored history (fork blank leaf leaf))
set_ip_history-restored_example =
    set_ip_history-restored roomy socket history history_msg (pos 0) (bump blank) 25 one_node_state
      one_node roomy-IsLawful ((omega arith, omega arith, omega arith), tt) history_sent
      (bump-IsAmple blank) one_node-IsHcf (omega arith)

-- "10", which stands for 10.0.0.0
abbrev ten : Text
ten = 49 ∷ 48 ∷ []

abbrev inet_pton : Text → Option ℕ
inet_pton text = some 10

-- The line "10/8"
abbrev ten_net : List Entry
ten_net = record { text = ten; prefix = record { ip_prefix = 10; ip_prefix_len = 8 } } ∷ []

abbrev ten_msg : Draft
ten_msg = elim (send_bogon_list roomy inet_pton 0 socket (some (map entry_line ten_net))) [
  | Client.sent d ret ↦ d
  | Client.thrown ↦ empty_draft
  | Client.crashed ↦ empty_draft
  | Client.given_up ↦ empty_draft
]

ten_sent :
    send_bogon_list roomy inet_pton 0 socket (some (map entry_line ten_net))
    ≡ Client.sent ten_msg (pos 0)
unfolding send_bogon_list pack_lines put_count s_addr nla_put_all stoi stoi_at skip_space digits
    digits_from before_slash after_slash find_slash decimal
ten_sent = refl

ten_net-IsEntry : All (IsEntry inet_pton) ten_net
ten_net-IsEntry = (((refl, (refl, tt)), refl, omega arith), tt)

abbrev ample : Kernel
ample = record {
  bogon_cache = bump 0;
  hcf_cache = bump blank;
  buffer_allocated = true;
  tree_allocated = true;
  state_allocated = true;
  stack = 34;
}

abbrev calm : Firewall
calm = record { under_attack = false; bogon = one_prefix_state; hcf = one_node_state }

send_bogon_list-filtered_example :
    (b₀ : Draft) × (socket.make_message Cmd.set_bogon ≡ some b₀)
    × (b₁ : Draft) × (m : ℕ) × (m ≤ length ten_net)
    × IsFilled roomy ten_net m b₀
    × (pack_lines roomy inet_pton 0 (map entry_line ten_net) b₀ 0 ≡ lines b₁ m)
    × Handles parse
        (pos 1)
        ample
        (roomy.draft ten_msg).complete
        calm
        (prefixes (take m ten_net))
        0x0a00_0001
        ((m ≡ 0) ⊎ CountRefused roomy m b₁)
send_bogon_list-filtered_example =
    send_bogon_list-filtered roomy inet_pton 0 socket ten_net ten_msg (pos 0) parse (pos 1) ample
      calm one_prefix 0x0a00_0001 roomy-IsLawful parse-IsParse ten_net-IsEntry
      ((omega arith, omega arith), tt) (omega arith) ten_sent refl refl (bump-IsAmple 0)
      one_prefix-IsBogon (omega arith)

-- "Up"
abbrev greeting : List ℕ
greeting = 85 ∷ 112 ∷ []

abbrev greeting_msg : Draft
greeting_msg =
    (lfw_build_log_msg roomy (record { level = 6; timestamp = 99; msg = greeting }) empty_draft).0

greeting_sent :
    lfw_log roomy genl 4000 true 6 99 greeting ≡ (sent Cmd.group_log greeting_msg, pos 0, false)
unfolding lfw_log lfw_make_multicast_msg lfw_build_log_msg nla_build nla_put_all
greeting_sent = refl

lfw_log-printed_example :
    (Cmd.group_log ≡ Cmd.group_log)
    × (log_message_received (parse (roomy.draft greeting_msg).complete)
        ≡ some (some (record { level = 6; timestamp = 99; message = take 1023 greeting }), nl_ok))
    × (false ≡ ltb 1024 (length greeting))
lfw_log-printed_example =
    lfw_log-printed roomy genl parse 4000 6 99 greeting Cmd.group_log greeting_msg (pos 0) false
      roomy-IsLawful parse-IsParse (omega arith) (omega arith)
      ((omega arith, omega arith), ((omega arith, omega arith), tt)) greeting_sent

-- The kernel's check by lengths alone
abbrev by_length : AttrType → Nla → Bool
by_length nla_unspec a = false
by_length nla_u8 a = a.nla_len == 1
by_length nla_u32 a = a.nla_len == 4
by_length nla_u64 a = a.nla_len == 8
by_length nla_be16 a = a.nla_len == 2
by_length nla_be32 a = a.nla_len == 4
by_length nla_flag a = a.nla_len == 0
by_length nla_nul_string a = true
by_length (nla_binary n) a = leb a.nla_len n

by_length-IsCheck : IsCheck by_length
by_length-IsCheck = record {
  admits-u8 = λ a e. ground (arith, e);
  admits-u32 = λ a e. ground (arith, e);
  admits-u64 = λ a e. ground (arith, e);
  admits-be16 = λ a e. ground (arith, e);
  admits-be32 = λ a e. ground (arith, e);
  admits-flag = λ a e. ground (arith, e);
  admits-binary = λ n a h. ground (arith, h);
}

send_bogon_list-Passes_example : Passes by_length (roomy.draft ten_msg).complete
send_bogon_list-Passes_example =
    send_bogon_list-Passes by_length by_length-IsCheck roomy inet_pton 0 socket ten_net ten_msg
      (pos 0) roomy-IsLawful ten_net-IsEntry ten_sent

set_ip_history-Passes_example : Passes by_length (roomy.draft history_msg).complete
set_ip_history-Passes_example =
    set_ip_history-Passes by_length by_length-IsCheck roomy socket history history_msg (pos 0)
      roomy-IsLawful history_sent
