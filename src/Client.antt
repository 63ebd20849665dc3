-- ===== src/Client.antt =====
-- The client in user space: src/nl/base.cpp and include/nl/base.hpp. libnl's calls are parameters.
pub mod Hcf
pub mod Text
pub mod Command
pub mod Log
pub mod PacketFilter
pub mod Admitted
pub mod Sockets
pub mod Main
use librefw.Base.{ℕ, ◌≡◌, Option, none, some, []}
use librefw.Base.Int.{ℤ}
use librefw.Netlink.Buffer.{Writer}

-- `make_message` for a command, where `none` is the exception that it throws if libnl has no room for
-- the header, and the code that `nl_send_auto` returns. A message begins empty.
pub record Socket (W : Writer) : Type 0 where
  pub make_message : ℕ → Option W.Buf
  pub nl_send_auto : W.Buf → ℤ
  pub begins_empty :
      (cmd : ℕ) (b : W.Buf)
      → make_message cmd ≡ some b
      → W.draft b ≡ record { complete = []; opened = none }

-- How a command of the client ends: an exception, a NULL pointer that is used, a message that is given
-- up, or the message that is sent with its code.
pub data Sending (B : Type 0) : Type 0 where
  thrown : Sending B
  crashed : Sending B
  given_up : Sending B
  sent : B → ℤ → Sending B

-- What a loop that packs a message leaves: the message with all that was to be packed, the message
-- at the first that found no room, or the use of a NULL pointer.
pub data Packed (B : Type 0) : Type 0 where
  packed : B → Packed B
  stopped : B → Packed B
  null_used : Packed B

-- The codes of a listener's callback
pub data Callback : Type 0 where
  nl_ok : Callback
  nl_skip : Callback
