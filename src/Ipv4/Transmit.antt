-- ===== src/Ipv4/Transmit.antt =====
-- ipv4.c: handing a packet to the IPv4 task.
use ip.Base.{Bool, true, false, some, State, ◌>>=◌, ◌>>◌, return, get, if◌then◌else◌}
use ip.Utility.Types.{NetContext}
use ip.Os.{Env, Call, Timeout, Queue, Err, Ipv4Params}
use ip.Sys.{Sys, queue_send, free_buf}

-- `ipv4_set_self_net_context`, on the symbol that the four protocols share.
unfoldable pub ipv4_set_self_net_context : NetContext → State Sys (Unit {0})
ipv4_set_self_net_context net s = (tt, record s { self_net = net })

-- The answer to a send: the block goes to the IPv4 task, or is freed here.
abbrev pub send_ipv4_answer : Ipv4Params → Bool → State Sys Err
send_ipv4_answer params true = return Err.esp_ok
send_ipv4_answer params false = do free_buf (some params.payload); return Err.esp_fail

unfoldable pub send_ipv4_packet : Env → Ipv4Params → State Sys Err
send_ipv4_packet env params = do
  s ← get
  if s.has_ipv4_queue
      then (do
        result ←
            queue_send env Queue.ipv4_transmit_queue
              (λ b. Call.send_ipv4_queue params Timeout.no_wait b)
        send_ipv4_answer params result)
      else (do free_buf (some params.payload); return Err.esp_fail)
