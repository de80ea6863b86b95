-- ===== src/Tcp/Segment/Layout.antt =====
-- A header that is written can be read back.
use ip.Base.{ℕ, ◌<◌, ◌≡◌, arith, List, []}
use ip.Utility.Endian.{load16-put16, load32-put32}
use ip.Tcp.Segment.{Header, put_front, read_header}

-- Each field fits its width.
pub record Fits (h : Header) : Type 0 where
  pub src_port : h.src_port < 65536
  pub dst_port : h.dst_port < 65536
  pub seq_num : h.seq_num < 4294967296
  pub ack_num : h.ack_num < 4294967296
  pub d_offset : h.d_offset < 16
  pub control : h.control < 256
  pub window : h.window < 65536

-- From a segment with the header that tcp_send_internal wrote, input_tcp_internal reads that
-- header, when its fields are in range.
pub read_header-put_front :
    (h : Header) (rest : List ℕ) → Fits h → read_header (put_front h rest) ≡ h
unfolding read_header
read_header-put_front h rest f = ground (
  arith,
  load16-put16 h.src_port [] f.src_port,
  load16-put16 h.dst_port [] f.dst_port,
  load32-put32 h.seq_num [] f.seq_num,
  load32-put32 h.ack_num [] f.ack_num,
  load16-put16 h.window [] f.window,
)
