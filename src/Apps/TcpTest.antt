-- ===== src/Apps/TcpTest.antt =====
-- components/tcp_test/src/tcp_test.c: a server that greets each client.
use ip.Base.{
  ℕ, ◌+◌, ltb, if◌then◌else◌, List, [], ◌∷◌, ◌++◌, none, some, State, ◌>>=◌, ◌>>◌, skip, length,
}
use ip.Utility.Types.{Ipv4Addr}
use ip.Utility.Print.{codes}
use ip.Os.{Buf, Env, Timeout, Callbacks}
use ip.Sys.{Sys, malloc, fault}
use ip.Tcp.Send.{tcp_send}
use ip.Tcp.Commands.{tcp_listen_port}

-- `on_receive`: the string for the log is filled without a test for NULL, and is not freed.
unfoldable pub on_receive : Env → List ℕ → ℕ → State Sys (Unit {0})
on_receive env received data_length = do
  data_string ← malloc env (data_length + 1)
  elim data_string [
    | none ↦ fault
    | some a ↦ if ltb (length received) data_length then fault else skip
  ]

-- `RESPONSE`, a string literal: the linker puts it at some address.
abbrev pub response : ℕ → Buf
response address = record { addr = address; bytes = codes "Hello world!" ++ (0 ∷ []) }

abbrev pub tcp_test_port : ℕ
tcp_test_port = 10741

-- `on_connect`, called in the TCP task; it sends the literal itself.
unfoldable pub on_connect : Env → ℕ → ℕ → Ipv4Addr → State Sys (Unit {0})
on_connect env literal other_port_num other_ipv4_addr = do
  tcp_send env (λ ps. ps) tcp_test_port other_port_num other_ipv4_addr (some (response literal)) 13
      Timeout.no_wait
  skip

-- The callbacks, by numbers that stand for the functions.
abbrev pub test_callbacks : Callbacks
test_callbacks = record { on_receive = some 21; on_connect = some 22; on_disconnect = some 23 }

-- `on_disconnect`, and `tcp_test_init`, which does the same.
unfoldable pub on_disconnect : Env → State Sys (Unit {0})
on_disconnect env = do tcp_listen_port env tcp_test_port test_callbacks; skip

unfoldable pub tcp_test_init : Env → State Sys (Unit {0})
tcp_test_init env = do tcp_listen_port env tcp_test_port test_callbacks; skip
