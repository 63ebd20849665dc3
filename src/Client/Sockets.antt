-- ===== src/Client/Sockets.antt =====
-- src/nl/base.cpp and include/nl/base.hpp: the constructors of the sockets with their exceptions,
-- `make_message`, and the loop of a listener. libnl's calls are parameters.
pub mod Built
use librefw.Base.{
  ℕ, suc, ◌*◌, ◌≡◌, Bool, true, false, Option, none, some, List, [], ◌∷◌, if◌then◌else◌,
}
use librefw.Base.Int.{ℤ, pos, minus, negsuc, is_neg, is_nonzero}
use librefw.Netlink.{Nla}
use librefw.Netlink.Buffer.{Writer}
use librefw.Client.Text.{Text}

-- A call that changes the socket returns it with its code. `genlmsg_put` takes the message, which is
-- NULL if `nlmsg_alloc` found no memory, a family and a command; a message begins empty. `nla_parse`
-- takes the greatest type and fills a table.
pub record Libnl (W : Writer) : Type 1 where
  pub Sock : Type 0
  pub Msg : Type 0
  pub nl_socket_alloc : Option Sock
  pub genl_connect : Sock → Sock × ℤ
  pub genl_ctrl_resolve : Text → Sock → Sock × ℤ
  pub nl_socket_set_buffer_size : (rx tx : ℕ) → Sock → Sock × ℤ
  pub nl_socket_disable_seq_check : Sock → Sock
  pub genl_ctrl_resolve_grp : (family group : Text) → Sock → Sock × ℤ
  pub nl_socket_add_membership : ℤ → Sock → Sock × ℤ
  pub nl_socket_modify_cb : Sock → Sock × ℤ
  pub nlmsg_alloc : Option W.Buf
  pub genlmsg_put : (family : ℤ) → (cmd : ℕ) → Option W.Buf → Option W.Buf
  pub nl_send_auto : Sock → W.Buf → ℤ
  pub nla_parse : (maxtype : ℕ) → Msg → (ℕ → Option Nla) × ℤ
  pub begins_empty :
      (family : ℤ) (cmd : ℕ) (b : W.Buf)
      → genlmsg_put family cmd nlmsg_alloc ≡ some b
      → W.draft b ≡ record { complete = []; opened = none }

-- The texts of the exceptions
pub data What : Type 0 where
  nl_socket_alloc : What
  could_not_connect : What
  could_not_resolve_family : What
  could_not_set_buffer_size : What
  could_not_resolve_group : What
  could_not_subscribe : What
  could_not_modify_callback : What
  unable_to_parse : What

-- `std::system_error`
pub record SystemError : Type 0 where
  pub code : ℤ
  pub what : What

-- -v
abbrev pub negated : ℤ → ℤ
negated (pos n) = minus n
negated (negsuc n) = pos (suc n)

-- What a constructor leaves: the object, or an exception with the socket that the destructor of `sock`
-- hands to `nl_socket_free`, if there is one.
pub data Constructed (S A : Type 0) : Type 0 where
  built : A → Constructed S A
  throws : SystemError → Option S → Constructed S A

-- `if (ret < 0) throw …`
unfoldable pub checked : {S A : Type 0} → What → S × ℤ → (S → ℤ → Constructed S A) → Constructed S A
checked what (sock, ret) go =
    if is_neg ret
    then throws (record { code = negated ret; what = what }) (some sock)
    else go sock ret

pub record NetlinkBase (S : Type 0) : Type 0 where
  pub family_name : Text
  pub sock : S
  pub family_id : ℤ

pub record NetlinkMulticastBase (S : Type 0) : Type 0 where
  pub base : NetlinkBase S
  pub group_name : Text
  pub group_id : ℤ

-- "librefw"
abbrev pub family_name : Text
family_name = 108 ∷ 105 ∷ 98 ∷ 114 ∷ 101 ∷ 102 ∷ 119 ∷ []

-- The default of `bufsize`
abbrev pub default_bufsize : ℕ
default_bufsize = 4 * 1024 * 1024

-- `LFW_NLA_MAX`
abbrev pub nla_max : ℕ
nla_max = 24

-- What a listener does with a message: it prints the exception and skips it, or hands it over.
pub data Received (R : Type 0) : Type 0 where
  skipped : SystemError → Received R
  received : R → Received R

-- The loop of a listener: an exception before it, or what became of the messages that arrived so far,
-- and whether the last of them made it crash.
pub data Listening (R : Type 0) : Type 0 where
  not_listening : SystemError → Listening R
  listening : List (Received R) → (crashes : Bool) → Listening R

module _ (W : Writer) (L : Libnl W) where
  unfoldable pub netlink_base : Text → ℕ → Constructed L.Sock (NetlinkBase L.Sock)
  netlink_base name bufsize = elim L.nl_socket_alloc [
    | none ↦ throws (record { code = pos 12; what = nl_socket_alloc }) none
    | some sock ↦ checked could_not_connect (L.genl_connect sock) (λ sock' _.
        checked could_not_resolve_family (L.genl_ctrl_resolve name sock') (λ sock'' family.
          checked could_not_set_buffer_size (L.nl_socket_set_buffer_size bufsize bufsize sock'')
            (λ sock''' _.
              built (record { family_name = name; sock = sock'''; family_id = family }))))
  ]

  -- After the constructor of the base
  unfoldable pub join_group :
      Text → NetlinkBase L.Sock → Constructed L.Sock (NetlinkMulticastBase L.Sock)
  join_group group b =
      checked could_not_resolve_group
        (L.genl_ctrl_resolve_grp b.family_name group (L.nl_socket_disable_seq_check b.sock))
        (λ sock id. checked could_not_subscribe (L.nl_socket_add_membership id sock) (λ sock' _.
          built (record { base = record b { sock = sock' }; group_name = group; group_id = id })))

  unfoldable pub netlink_multicast_base :
      Text → Text → ℕ → Constructed L.Sock (NetlinkMulticastBase L.Sock)
  netlink_multicast_base name group bufsize = elim (netlink_base name bufsize) [
    | throws e freed ↦ throws e freed
    | built b ↦ join_group group b
  ]

  -- `none` is the exception.
  unfoldable pub make_message : NetlinkBase L.Sock → ℕ → Option W.Buf
  make_message b netlink_function = L.genlmsg_put b.family_id netlink_function L.nlmsg_alloc

  -- The table has the entries up to `LFW_NLA_MAX`.
  unfoldable pub parse_args : L.Msg → Received (ℕ → Option Nla)
  parse_args msg =
      let (tb, ret) = L.nla_parse nla_max msg in
      if is_nonzero ret
      then skipped (record { code = negated ret; what = unable_to_parse })
      else received tb

  module _ {R : Type 0} (on_message_received : (ℕ → Option Nla) → Option R) where
    -- The callback; `none` is a crash.
    unfoldable pub wait_callback : L.Msg → Option (Received R)
    wait_callback msg = elim (parse_args msg) [
      | skipped e ↦ some (skipped e)
      | received tb ↦ elim (on_message_received tb) [ none ↦ none | some r ↦ some (received r) ]
    ]

    -- `while (1) nl_recvmsgs_default(…)`, as far as messages have arrived
    unfoldable pub handle_all : List L.Msg → List (Received R) × Bool
    handle_all [] = ([], false)
    handle_all (msg ∷ msgs) = elim (wait_callback msg) [
      | none ↦ ([], true)
      | some r ↦ let (rs, crashes) = handle_all msgs in (r ∷ rs, crashes)
    ]

    unfoldable pub wait_for_messages : NetlinkBase L.Sock → List L.Msg → Listening R
    wait_for_messages b msgs =
        let (_, ret) = L.nl_socket_modify_cb b.sock in
        let (rs, crashes) = handle_all msgs in
        if is_neg ret
        then not_listening (record { code = negated ret; what = could_not_modify_callback })
        else listening rs crashes
