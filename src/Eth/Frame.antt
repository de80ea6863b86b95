-- ===== src/Eth/Frame.antt =====
-- eth.c: a frame goes out once and its block is given back.
use ip.Base.{ℕ, ◌+◌, ◌<◌, ◌≡◌, arith, List, ◌∷◌, some, length, take_all, le→ltb, u16}
use ip.Utility.Types.{MacAddr}
use ip.Os.{Env, Call}
use ip.Sys.{Sys}
use ip.Eth.{eth_tx, frame_bytes}

-- When there is memory, a payload of at most 65521 bytes goes to the radio once, whole and behind
-- its header; then the block is freed, and the radio's answer is returned.
pub eth_tx_lem :
    (env : Env) (dst src : MacAddr) (ethertype : ℕ) (payload : List ℕ) (addr : ℕ) (s : Sys)
    → length payload < 65522
    → env.malloc_at s.log (14 + length payload) ≡ some addr
    → let before = Call.malloc (14 + length payload) (some addr) ∷ s.log in
      let frame = frame_bytes dst src ethertype payload in
      let result = env.wifi_result before frame in
      eth_tx env dst src ethertype payload (length payload) s
      ≡ (result, record s { log = Call.free addr ∷ Call.wifi_tx frame result ∷ before })
unfolding eth_tx
eth_tx_lem env dst src ethertype payload addr s lt got =
    rw (exact, got, exact, le→ltb (length payload) (length payload) (omega arith))
      (rw (le→ltb (14 + length payload) (14 + length payload) (omega arith), take_all payload))
  where
    exact : u16 (14 + length payload) ≡ 14 + length payload
    exact = omega arith
