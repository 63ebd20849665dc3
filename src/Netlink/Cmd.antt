-- ===== src/Netlink/Cmd.antt =====
-- kernel/include/nl_ops.h: `enum lfw_nl_cmds` and `enum lfw_nl_groups`.
use librefw.Base.{ℕ}

abbrev pub set_hcf_history : ℕ
set_hcf_history = 1

abbrev pub set_bogon : ℕ
set_bogon = 2

abbrev pub set_under_attack : ℕ
set_under_attack = 3

abbrev pub log : ℕ
log = 4

abbrev pub hcf : ℕ
hcf = 5

abbrev pub pkt_filter_log : ℕ
pkt_filter_log = 6

abbrev pub group_log : ℕ
group_log = 0

abbrev pub group_hcf : ℕ
group_hcf = 1

abbrev pub group_pkt_filter_log : ℕ
group_pkt_filter_log = 2
