-- ===== src/Netlink/Attr.antt =====
-- kernel/include/nl_ops.h: `enum lfw_nl_attrs`.
use librefw.Base.{ℕ}

abbrev pub num_ip_prefix : ℕ
num_ip_prefix = 1

abbrev pub ip_prefix : ℕ
ip_prefix = 2

abbrev pub n_ip_addr : ℕ
n_ip_addr = 3

abbrev pub n_ip_prefix_len : ℕ
n_ip_prefix_len = 4

abbrev pub under_attack : ℕ
under_attack = 5

abbrev pub hcf_history : ℕ
hcf_history = 12

abbrev pub hcf_history_ip : ℕ
hcf_history_ip = 13

abbrev pub hcf_history_hc : ℕ
hcf_history_hc = 14

abbrev pub hcf_history_ttl : ℕ
hcf_history_ttl = 15

abbrev pub log_ts : ℕ
log_ts = 6

abbrev pub log_lvl : ℕ
log_lvl = 7

abbrev pub log_msg : ℕ
log_msg = 8

abbrev pub hcf_ip : ℕ
hcf_ip = 9

abbrev pub hcf_hc : ℕ
hcf_hc = 10

abbrev pub hcf_ttl : ℕ
hcf_ttl = 11

abbrev pub pkt_filter_log : ℕ
pkt_filter_log = 16

abbrev pub pkt_filter_log_ts : ℕ
pkt_filter_log_ts = 17

abbrev pub pkt_filter_log_src_ip : ℕ
pkt_filter_log_src_ip = 18

abbrev pub pkt_filter_log_dest_ip : ℕ
pkt_filter_log_dest_ip = 19

abbrev pub pkt_filter_log_src_port : ℕ
pkt_filter_log_src_port = 20

abbrev pub pkt_filter_log_dest_port : ℕ
pkt_filter_log_dest_port = 21

abbrev pub pkt_filter_log_proto : ℕ
pkt_filter_log_proto = 22

abbrev pub pkt_filter_log_ttl : ℕ
pkt_filter_log_ttl = 23

abbrev pub pkt_filter_log_action : ℕ
pkt_filter_log_action = 24
