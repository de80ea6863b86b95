-- ===== src/Tcp/Input.antt =====
-- tcp.c: the segment that `input_tcp_internal` is given, and the port that it is for.
use ip.Base.{ℕ, ◌+◌, ◌-◌, ◌*◌, ◌||◌, if◌then◌else◌, List, Option, none, some, u16}
use ip.Utility.Types.{Ipv4Addr}
use ip.Sys.{Port, flag_fin, flag_syn}
use ip.Tcp.Ports.{find_port, find_listening_port}
use ip.Tcp.Segment.{Header, read_header}

-- The arguments of `input_tcp_internal`.
pub record Input : Type 0 where
  pub buffer : List ℕ
  pub length : ℕ
  pub src_ipv4_addr : Ipv4Addr

abbrev pub header : Input → Header
header m = read_header m.buffer

abbrev pub control_of : Input → ℕ
control_of m = (header m).control

abbrev pub header_length : Input → ℕ
header_length m = (header m).d_offset * 4

-- `length - header_length`, cut to 16 bits.
abbrev pub data_length : Input → ℕ
data_length m = u16 (m.length + 65536 - header_length m)

-- `(SYN) || (FIN)`, as the number that C adds.
abbrev pub syn_or_fin : ℕ → ℕ
syn_or_fin control = if flag_syn control || flag_fin control then 1 else 0

abbrev pub sequence_increment : Input → ℕ
sequence_increment m = u16 (m.length + 65536 - header_length m + syn_or_fin (control_of m))

-- The port that a segment is for: its connection, or for a SYN a listening port.
unfoldable pub select_port : Input → List Port → Option ℕ
select_port m ports =
    elim (find_port (header m).dst_port (header m).src_port m.src_ipv4_addr ports) [
      | some i ↦ some i
      | none ↦
          if flag_syn (control_of m) then find_listening_port (header m).dst_port ports else none
    ]
