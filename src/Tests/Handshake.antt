-- ===== src/Tests/Handshake.antt =====
-- A run of tcp.c: a SYN opens a connection on a listening port.
use ip.Base.{◌≡◌, refl}
use ip.Sys.{syn_received}
use ip.Tcp.Ports.{port_at}
use ip.Tcp.Receive.{input_tcp_internal}
use ip.Tests.Setup.{granting, syn_packet, listening}

syn_opens :
    (port_at (input_tcp_internal granting syn_packet listening).1.ports 0).state ≡ syn_received
unfolding input_tcp_internal ip.Tcp.Segment.read_header ip.Tcp.Input.select_port
    ip.Tcp.Ports.find_port ip.Utility.Endian.ntohs ip.Tcp.Ports.find_listening_port
    ip.Utility.Types.ip_eq ip.Tcp.Receive.input_on_port ip.Tcp.Receive.accept_segment
    ip.Tcp.Acks.handle_ack ip.Tcp.States.on_state ip.Tcp.Acks.send_ack ip.Tcp.States.on_listen
    ip.Tcp.Send.tcp_enqueue_reliable ip.Tcp.Send.enqueue_taken
syn_opens = refl
