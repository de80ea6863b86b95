-- ===== src/Wifi/Frames.antt =====
-- What becomes of a whole frame that another station sent: from wifi_rxcb through the protocols,
-- back to the radio or on to the TCP task.
use ip.Base.{
  ℕ, ◌+◌, ◌-◌, ◌<◌, ◌≡◌, refl, ap, ◌∙◌, arith, List, ◌∷◌, ◌++◌, Option, none, some, length,
  length-append, le→ltb, u16,
}
use ip.Utility.Types.{Ipv4Addr, MacAddr}
use ip.Utility.Endian.{htons, load16-put16}
use ip.Os.{Env, Call}
use ip.Sys.{Sys}
use ip.Eth.{frame_bytes}
use ip.Eth.Frame.{eth_tx_lem}
use ip.Arp.Packets.{arp_ethertype, ipv4_ethertype, arp_packet, arp_input, send_arp_reply}
use ip.Arp.Packets.Laws.{request_answered}
use ip.Tcp.Send.Checksum.{IsIp}
use ip.Ipv4.Header.{packet_bytes}
use ip.Ipv4.Input.{ipv4_input}
use ip.Ipv4.Input.Accept.{length-packet_bytes}
use ip.Ipv4.Input.Deliver.{input_calls, tcp_segment_delivered}
use ip.Wifi.{counted, dispatch_frame, wifi_rxcb}

-- The call that gives a frame back.
abbrev pub released : ℕ → Option ℕ → Call
released buffer none = Call.free buffer
released buffer (some eb) = Call.free_rx_buffer eb

-- The state once the frame has been counted and given back.
abbrev pub given_back : ℕ → Option ℕ → Sys → Sys
given_back buffer eb s = record (counted eb s) { log = released buffer eb ∷ s.log }

-- Every frame with a header is dispatched, and then given back.
wifi_rxcb-frame :
    (env : Env) (buffer : ℕ) (eb : Option ℕ) (dst src : MacAddr) (ethertype : ℕ) (packet : List ℕ)
    (len : ℕ) (s : Sys)
    → let frame = frame_bytes dst src ethertype packet in
      (wifi_rxcb env buffer frame len eb s).1
      ≡ given_back buffer eb (dispatch_frame env frame len s).1
unfolding wifi_rxcb counted
wifi_rxcb-frame env buffer none dst src ethertype packet len s =
    rw (le→ltb (length (frame_bytes dst src ethertype packet)) 14 (omega arith))
wifi_rxcb-frame env buffer (some eb) dst src ethertype packet len s =
    rw (le→ltb (length (frame_bytes dst src ethertype packet)) 14 (omega arith))

dispatch_frame-arp :
    (env : Env) (dst src : MacAddr) (packet : List ℕ) (len : ℕ) (s : Sys)
    → dispatch_frame env (frame_bytes dst src (htons arp_ethertype) packet) len s
      ≡ arp_input env packet s
unfolding dispatch_frame
dispatch_frame-arp env dst src packet len s = rw (load16-put16 arp_ethertype packet (omega arith))

dispatch_frame-ipv4 :
    (env : Env) (dst src : MacAddr) (packet : List ℕ) (len : ℕ) (s : Sys)
    → dispatch_frame env (frame_bytes dst src (htons ipv4_ethertype) packet) len s
      ≡ ipv4_input env packet (u16 (len + 65536 - 14)) s
unfolding dispatch_frame
dispatch_frame-ipv4 env dst src packet len s = rw (load16-put16 ipv4_ethertype packet (omega arith))

-- When there is memory for it, a frame with an ARP request for the station's address is answered
-- by one frame to the sender, with the station's MAC; then the request is counted and given back.
pub arp_request_frame_answered :
    (env : Env) (buffer addr : ℕ) (eb : Option ℕ) (dst mac left_over : MacAddr) (ip : Ipv4Addr)
    (len : ℕ) (s : Sys)
    → env.malloc_at s.log 42 ≡ some addr
    → let request =
        frame_bytes dst mac (htons arp_ethertype) (arp_packet 1 mac ip left_over s.self_ip_addr) in
      let reply =
        frame_bytes mac s.self_mac_addr
          (htons arp_ethertype)
          (arp_packet 2 s.self_mac_addr s.self_ip_addr mac ip) in
      let before = Call.malloc 42 (some addr) ∷ s.log in
      (wifi_rxcb env buffer request len eb s).1
      ≡ given_back buffer eb (record s {
        log = Call.free addr ∷ Call.wifi_tx reply (env.wifi_result before reply) ∷ before;
      })
unfolding send_arp_reply
arp_request_frame_answered env buffer addr eb dst mac left_over ip len s got =
    wifi_rxcb-frame env buffer eb dst mac (htons arp_ethertype)
      (arp_packet 1 mac ip left_over s.self_ip_addr) len s
    ∙ ap (λ r. given_back buffer eb r.1)
        (dispatch_frame-arp env dst mac (arp_packet 1 mac ip left_over s.self_ip_addr) len s)
    ∙ ap (given_back buffer eb) (request_answered env mac left_over ip s.self_ip_addr s refl)
    ∙ ap (λ r. given_back buffer eb r.1)
        (eth_tx_lem env mac s.self_mac_addr (htons arp_ethertype)
          (arp_packet 2 s.self_mac_addr s.self_ip_addr mac ip) addr s (omega arith) got)

-- When there is memory for it, the TCP segment in a frame for the station, with a packet that the
-- stack built and a segment and padding of less than 65502 bytes, goes to the queue of the TCP
-- task, in a block of its own and without the padding; if the queue is full the block is freed.
-- Then the frame is counted and given back.
pub tcp_frame_delivered :
    (env : Env) (buffer addr : ℕ) (eb : Option ℕ) (dst mac : MacAddr) (segment padding : List ℕ)
    (src own : Ipv4Addr) (s : Sys)
    → length segment + length padding < 65502
    → IsIp src
    → IsIp own
    → own ≡ s.self_net.ip
    → env.malloc_at s.log (length segment) ≡ some addr
    → let frame =
        frame_bytes dst mac
          (htons ipv4_ethertype)
          (packet_bytes (20 + length segment) 6 src own (segment ++ padding)) in
      (wifi_rxcb env buffer frame (length frame) eb s).1
      ≡ given_back buffer eb (record s { log = input_calls env addr segment src s })
tcp_frame_delivered env buffer addr eb dst mac segment padding src own s small hs hd mine got =
    wifi_rxcb-frame env buffer eb dst mac (htons ipv4_ethertype) packet (length frame) s
    ∙ ap (λ r. given_back buffer eb r.1) (dispatch_frame-ipv4 env dst mac packet (length frame) s)
    ∙ ap (λ n. given_back buffer eb (ipv4_input env packet n s).1) exact
    ∙ ap (given_back buffer eb)
        (tcp_segment_delivered env addr segment padding src own s (omega arith) hs hd mine got)
  where
    packet : List ℕ
    packet = packet_bytes (20 + length segment) 6 src own (segment ++ padding)

    frame : List ℕ
    frame = frame_bytes dst mac (htons ipv4_ethertype) packet

    rest : List ℕ
    rest = segment ++ padding

    exact : u16 (length frame + 65536 - 14) ≡ length packet
    exact = omega (
      arith,
      length-packet_bytes (20 + length segment) 6 src own rest,
      length-append segment padding,
    )
