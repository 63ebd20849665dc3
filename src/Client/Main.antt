-- ===== src/Client/Main.antt =====
-- src/main.cpp: a run of the client, with the constructors of include/nl/command.hpp, log.hpp, hcf.hpp
-- and packet_filter_log.hpp. The parser of the command line, the files, the database and the clocks
-- are parameters.
pub mod Runs
pub mod Sent
use librefw.Base.{ℕ, Bool, true, false, Option, none, some, List, [], ◌∷◌, map, if◌then◌else◌}
use librefw.Base.Int.{ℤ, pos, is_neg}
use librefw.Netlink.{Attribute}
use librefw.Netlink.Buffer.{Writer}
use librefw.Client.{Socket, Sending, thrown, crashed, given_up, sent, Callback}
use librefw.Client.Text.{Text}
use librefw.Client.Command.{send_bogon_list, set_under_attack}
use librefw.Client.Hcf.{Row, on_message_received, set_ip_history}
use librefw.Client.Log.{Printed, log_message_received}
use librefw.Client.PacketFilter.{PacketFilterEvent, Timespec, boot_ns, handle_attributes}
use librefw.Client.Sockets.{
  Libnl, Constructed, built, throws, NetlinkBase, NetlinkMulticastBase, family_name,
  default_bufsize, Received, Listening, not_listening, listening, netlink_base,
  netlink_multicast_base, make_message, wait_for_messages,
}

-- The subcommands with their options
pub data Subcommand : Type 0 where
  set_bogon : (filename : Text) → Subcommand
  view_logs : Subcommand
  view_pkt_filter_logs : Subcommand
  under_attack : (set : Bool) → Subcommand
  view_hcf : Subcommand
  set_hcf : Subcommand

-- What the parser makes of the arguments: one subcommand, or the code with which `main` returns at
-- once (after an error, the help or the version).
pub data CommandLine : Type 0 where
  runs : Subcommand → CommandLine
  returns : ℤ → CommandLine

-- `connects` says whether the constructor of `DbManager` opens the database, and `rows` is the result
-- of the query, if it does not throw. `messages` arrive at a listener, and `attributes` are those that
-- the loop of the packet log finds in a message.
pub record World (W : Writer) (L : Libnl W) : Type 0 where
  pub parse : List Text → CommandLine
  pub ifstream : Text → Option (List Text)
  pub inet_pton : Text → Option ℕ
  pub stale : ℕ
  pub connects : Bool
  pub rows : Option (List Row)
  pub messages : List L.Msg
  pub attributes : L.Msg → List Attribute
  pub real_tp : Timespec
  pub boot_tp : Timespec

-- How a run ends: `main` returns a code, and may have handed a message over to `nl_send_auto`, whose code
-- stands beside it; an exception leaves `main`; a
-- NULL pointer is used; or a listener is in its loop.
pub data Run (B : Type 0) : Type 0 where
  exits : ℤ → Option (B × ℤ) → Run B
  terminates : Run B
  crashes : Run B
  shows_logs : List (Received (Option Printed × Callback)) → (crashed : Bool) → Run B
  shows_packets : List (List PacketFilterEvent) → Run B
  shows_hcf : List (Received (Row × Callback)) → (crashed : Bool) → Run B

-- "log", "hcf" and "pkt_filter_log"
abbrev pub log_group : Text
log_group = 108 ∷ 111 ∷ 103 ∷ []

abbrev pub hcf_group : Text
hcf_group = 104 ∷ 99 ∷ 102 ∷ []

abbrev pub pkt_filter_log_group : Text
pkt_filter_log_group =
    112 ∷ 107 ∷ 116 ∷ 95 ∷ 102 ∷ 105 ∷ 108 ∷ 116 ∷ 101 ∷ 114 ∷ 95 ∷ 108 ∷ 111 ∷ 103 ∷ []

-- The end of a callback that sends a message; `main` returns 0 after it, whatever `nl_send_auto` returned.
abbrev pub after_sending : {B : Type 0} → Sending B → Run B
after_sending thrown = terminates
after_sending crashed = crashes
after_sending given_up = exits (pos 0) none
after_sending (sent b ret) = exits (pos 0) (some (b, ret))

-- The loop of a listener, shown as `shows` says
abbrev pub after_listening :
    {B R : Type 0} → (List (Received R) → Bool → Run B) → Listening R → Run B
after_listening shows (not_listening e) = terminates
after_listening shows (listening rs failed) = shows rs failed

module _ (W : Writer) (L : Libnl W) where
  -- An object of the client as its commands use it
  unfoldable pub socket : NetlinkBase L.Sock → Socket W
  unfolding make_message
  socket b = record {
    make_message = make_message W L b;
    nl_send_auto = L.nl_send_auto b.sock;
    begins_empty = λ cmd. L.begins_empty b.family_id cmd;
  }

  -- `CommandDispatcher` and a command of it
  unfoldable pub dispatch : (Socket W → Sending W.Buf) → Run W.Buf
  dispatch command = elim (netlink_base W L family_name default_bufsize) [
    | throws e freed ↦ terminates
    | built b ↦ after_sending (command (socket b))
  ]

  -- A listener of a group and what it does
  unfoldable pub listen : Text → (NetlinkBase L.Sock → Run W.Buf) → Run W.Buf
  listen group go = elim (netlink_multicast_base W L family_name group default_bufsize) [
    | throws e freed ↦ terminates
    | built m ↦ go m.base
  ]

  -- `PacketFilterListener::wait_for_messages`
  unfoldable pub show_packets : World W L → NetlinkBase L.Sock → Run W.Buf
  show_packets w b =
      let (_, ret) = L.nl_socket_modify_cb b.sock in
      if is_neg ret
      then terminates
      else shows_packets (
          map (λ msg. handle_attributes (boot_ns w.real_tp w.boot_tp) (w.attributes msg))
            w.messages)

  -- `HcfListener::set_ip_history` with the query, whose exception it throws again
  unfoldable pub send_history : World W L → NetlinkBase L.Sock → Run W.Buf
  send_history w b = elim w.rows [
    | none ↦ terminates
    | some rows ↦ after_sending (set_ip_history W (socket b) rows)
  ]

  -- The callbacks of the subcommands. (`HcfListener` has the database as a member.)
  unfoldable pub run_subcommand : World W L → Subcommand → Run W.Buf
  run_subcommand w (set_bogon filename) =
      dispatch (λ sock. send_bogon_list W w.inet_pton w.stale sock (w.ifstream filename))
  run_subcommand w view_logs =
      listen log_group
        (λ b. after_listening shows_logs (wait_for_messages W L log_message_received b w.messages))
  run_subcommand w view_pkt_filter_logs = listen pkt_filter_log_group (show_packets w)
  run_subcommand w (under_attack set) = dispatch (λ sock. set_under_attack W sock set)
  run_subcommand w view_hcf = listen hcf_group (λ b.
      if w.connects
      then after_listening shows_hcf (wait_for_messages W L on_message_received b w.messages)
      else terminates)
  run_subcommand w set_hcf =
      listen hcf_group (λ b. if w.connects then send_history w b else terminates)

  unfoldable pub main : World W L → List Text → Run W.Buf
  main w argv = elim (w.parse argv) [
    | returns code ↦ exits code none
    | runs sub ↦ run_subcommand w sub
  ]
