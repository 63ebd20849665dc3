-- ===== src/Netlink/Policy.antt =====
-- kernel/src/nl.c: the policies by which the kernel checks the attributes of a message before it calls a
-- handler. The check itself is the kernel's: a parameter.
use librefw.Base.{ℕ, ◌≡◌, ◌≤◌, Bool, true, List, All, ◌==◌, if◌then◌else◌}
use librefw.Netlink.{Nla, Attribute, scalar, nest}
use librefw.Netlink.Attr

pub data AttrType : Type 0 where
  nla_unspec : AttrType
  nla_u8 : AttrType
  nla_u32 : AttrType
  nla_u64 : AttrType
  nla_be16 : AttrType
  nla_be32 : AttrType
  nla_flag : AttrType
  nla_nul_string : AttrType
  nla_binary : ℕ → AttrType

-- `struct nla_policy`: a type, or a table for the attributes inside.
pub data Policy : Type 0 where
  typed : AttrType → Policy
  policy_nested : (ℕ → AttrType) → Policy

unfoldable pub lfw_ip_prefix_pol : ℕ → AttrType
lfw_ip_prefix_pol t =
    if t == Attr.n_ip_addr
    then nla_u32
    else if t == Attr.n_ip_prefix_len
    then nla_u8
    else nla_unspec

unfoldable pub hcf_ip_history_pol : ℕ → AttrType
hcf_ip_history_pol t =
    if t == Attr.hcf_history_ip
    then nla_binary 16
    else if t == Attr.hcf_history_hc
    then nla_u8
    else if t == Attr.hcf_history_ttl
    then nla_u8
    else nla_unspec

unfoldable pub pkt_filter_log_pol : ℕ → AttrType
pkt_filter_log_pol t =
    if t == Attr.pkt_filter_log_ts
    then nla_u64
    else if t == Attr.pkt_filter_log_src_ip
    then nla_be32
    else if t == Attr.pkt_filter_log_dest_ip
    then nla_be32
    else if t == Attr.pkt_filter_log_src_port
    then nla_be16
    else if t == Attr.pkt_filter_log_dest_port
    then nla_be16
    else if t == Attr.pkt_filter_log_proto
    then nla_u8
    else if t == Attr.pkt_filter_log_ttl
    then nla_u8
    else if t == Attr.pkt_filter_log_action
    then nla_u8
    else nla_unspec

unfoldable pub lfw_pol : ℕ → Policy
lfw_pol t =
    if t == Attr.num_ip_prefix
    then typed nla_u32
    else if t == Attr.ip_prefix
    then policy_nested lfw_ip_prefix_pol
    else if t == Attr.hcf_history
    then policy_nested hcf_ip_history_pol
    else if t == Attr.pkt_filter_log
    then policy_nested pkt_filter_log_pol
    else if t == Attr.under_attack
    then typed nla_flag
    else if t == Attr.log_ts
    then typed nla_u64
    else if t == Attr.log_lvl
    then typed nla_u8
    else if t == Attr.log_msg
    then typed nla_nul_string
    else if t == Attr.hcf_ip
    then typed nla_u32
    else if t == Attr.hcf_hc
    then typed nla_u8
    else if t == Attr.hcf_ttl
    then typed nla_u8
    else typed nla_unspec

-- What the kernel's check of one attribute admits.
pub record IsCheck (admits : AttrType → Nla → Bool) : Type 0 where
  pub admits-u8 : (a : Nla) → a.nla_len ≡ 1 → admits nla_u8 a ≡ true
  pub admits-u32 : (a : Nla) → a.nla_len ≡ 4 → admits nla_u32 a ≡ true
  pub admits-u64 : (a : Nla) → a.nla_len ≡ 8 → admits nla_u64 a ≡ true
  pub admits-be16 : (a : Nla) → a.nla_len ≡ 2 → admits nla_be16 a ≡ true
  pub admits-be32 : (a : Nla) → a.nla_len ≡ 4 → admits nla_be32 a ≡ true
  pub admits-flag : (a : Nla) → a.nla_len ≡ 0 → admits nla_flag a ≡ true
  pub admits-binary : (n : ℕ) (a : Nla) → a.nla_len ≤ n → admits (nla_binary n) a ≡ true

-- An attribute of a message passes the check.
abbrev pub PassesAt : (AttrType → Nla → Bool) → Policy → Attribute → Type 0
PassesAt admits (typed t) (scalar a) = admits t a ≡ true
PassesAt admits (typed t) (nest n) = ⊥
PassesAt admits (policy_nested pol) (scalar a) = ⊥
PassesAt admits (policy_nested pol) (nest n) = All (λ a. admits (pol a.nla_type) a ≡ true) n.nested

abbrev pub attr_type : Attribute → ℕ
attr_type (scalar a) = a.nla_type
attr_type (nest n) = n.nest_type

abbrev pub Passes : (AttrType → Nla → Bool) → List Attribute → Type 0
Passes admits attrs = All (λ a. PassesAt admits (lfw_pol (attr_type a)) a) attrs
