-- ===== src/Net.antt =====
-- include/mock-services/detail/platform_socket.h, and what the operating system does with sockets.
use mock_services.Base.{ℕ, Bool, Option, List}

-- A `raw_socket`; `none` is `kInvalidSock`.
abbrev pub RawSocket : Type 0
RawSocket = Option ℕ

-- The calls that a program makes on a socket and that the other side can observe.
pub data Event : Type 0 where
  sent : ℕ → List ℕ → Event
  shut : ℕ → Event
  closed : ℕ → Event

-- What `select` and `accept` return to a round of a server's loop.
pub data Ready : Type 0 where
  select_failed idle : Ready
  accepted : RawSocket → Ready

-- The answers of the operating system to `start`: the new socket, `bind`, the bound port, `listen`.
pub record Setup : Type 0 where
  pub socket : RawSocket
  pub bound : Bool
  pub name : Option ℕ
  pub listening : Bool
