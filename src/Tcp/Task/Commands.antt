-- ===== src/Tcp/Task/Commands.antt =====
-- tcp.c: what the commands do to the ports.
use ip.Base.{
  ℕ, ◌<◌, ◌≡◌, refl, ap, ◌∙◌, arith, List, length, set, none, some, Option-cases, inl, inr,
  lt-of-get_elem?, get_or-of-get_elem?,
}
use ip.Utility.Types.{Ipv4Addr, ip_zero}
use ip.Os.{Env, Callbacks, PortCmd, CmdType, Timeout}
use ip.Sys.{Sys, Port, port_zero, listen, syn_sent, fin_wait_1}
use ip.Tcp.Ports.Find.{IsConnection, find_port_iff}
use ip.Tcp.Ports.Touch.{TouchesOnly-set, TouchesOnly-trans, port_set}
use ip.Tcp.Send.{tcp_enqueue_reliable}
use ip.Tcp.Acks.{alone}
use ip.Tcp.Receive.Keep.{ports-tcp_enqueue_reliable}
use ip.Tcp.Ports.{port_at, find_port}
use ip.Tcp.Commands.{
  request, fin, syn, new_port, tcp_create_port_internal, tcp_connect_port_internal,
  tcp_listen_port_internal, tcp_close_port_internal, run_cmd,
}
use ip.Tcp.Task.{to_run}
use ip.Tcp.Task.Turns.{listens, connects, closes, Turns, Turns-same, Turns-set, Turns-then}
use ip.Tcp.Task.Creation.{asked, tcp_create_port_internal-cases}

abbrev command : CmdType → ℕ → ℕ → Ipv4Addr → Callbacks → PortCmd
command t n k a c = record {
  type = t;
  self_port_num = n;
  other_port_num = k;
  other_ipv4_addr = a;
  callbacks = c;
}

module _ (env : Env) (n : ℕ) (c : Callbacks) (s : Sys) where
  -- The table with a new port in entry `i`, and how the command goes on from there.
  abbrev with_new : ℕ → ℕ → Sys
  with_new i h = record (asked env s) { ports = set s.ports i (new_port n c h) }

  abbrev listening : Sys → ℕ → Port
  listening t i = record (port_at t.ports i) { state = listen; other_ipv4_addr = ip_zero }

  abbrev addressed : Sys → ℕ → ℕ → Ipv4Addr → Sys
  addressed t i k a = record t {
    ports = set t.ports i (record (port_at t.ports i) { other_ipv4_addr = a; other_port_num = k });
  }

  abbrev opening : Sys → ℕ → Sys
  opening u i = record u { ports = set u.ports i (record (port_at u.ports i) { state = syn_sent }) }

  unlistened :
      tcp_create_port_internal env n c s ≡ (none, asked env s)
      → (tcp_listen_port_internal env n c s).1 ≡ asked env s
  unfolding tcp_listen_port_internal
  unlistened e = ground (arith, e)

  listened :
      (i : ℕ) (t : Sys)
      → tcp_create_port_internal env n c s ≡ (some i, t)
      → (tcp_listen_port_internal env n c s).1 ≡ record t { ports = set t.ports i (listening t i) }
  unfolding tcp_listen_port_internal
  listened i t e = ground (arith, e)

  unconnected :
      (k : ℕ) (a : Ipv4Addr)
      → tcp_create_port_internal env n c s ≡ (none, asked env s)
      → (tcp_connect_port_internal env n k a c s).1 ≡ asked env s
  unfolding tcp_connect_port_internal
  unconnected k a e = ground (arith, e)

  connected :
      (k : ℕ) (a : Ipv4Addr) (i : ℕ) (t : Sys)
      → tcp_create_port_internal env n c s ≡ (some i, t)
      → let u = addressed t i k a in
        (tcp_connect_port_internal env n k a c s).1
        ≡ (tcp_enqueue_reliable env alone
            (request a (port_at u.ports i) syn)
            Timeout.max_delay
            (opening u i)).1
  unfolding tcp_connect_port_internal
  connected k a i t e = ground (arith, e)

  tcp_listen_port_internal-Turns :
      (k : ℕ) (a : Ipv4Addr)
      → Turns
          (to_run (command CmdType.cmd_create_and_listen n k a c))
          s
          (tcp_listen_port_internal env n c s).1
  tcp_listen_port_internal-Turns k a = elim (tcp_create_port_internal-cases env n c s) [
    | inl none_made ↦ rw (unlistened none_made) (Turns-same s (asked env s) refl)
    | inr (i, h, lt, free, made) ↦
        let t = with_new i h in
        let u : Sys = record t { ports = set t.ports i (listening t i) } in
        rw (listened i t made) (
          Turns-then i s t u (listening t i) (TouchesOnly-set i s t (new_port n c h) refl) lt refl (
            listens refl free refl
              (ap (λ q. q.self_port_num) (port_set i s t (new_port n c h) lt refl))))
  ]

  tcp_connect_port_internal-Turns :
      (k : ℕ) (a : Ipv4Addr)
      → Turns
          (to_run (command CmdType.cmd_create_and_connect n k a c))
          s
          (tcp_connect_port_internal env n k a c s).1
  tcp_connect_port_internal-Turns k a = elim (tcp_create_port_internal-cases env n c s) [
    | inl none_made ↦ rw (unconnected k a none_made) (Turns-same s (asked env s) refl)
    | inr (i, h, lt, free, made) ↦
        let t = with_new i h in
        let u = addressed t i k a in
        let q = record (port_at t.ports i) { other_ipv4_addr = a; other_port_num = k } in
        let new = TouchesOnly-set i s t (new_port n c h) refl in
        let f = TouchesOnly-trans new (TouchesOnly-set i t u q refl) in
        let here = port_set i t u q (rw new.size lt) refl in
        let own =
          ap (λ r. r.self_port_num) here
          ∙ ap (λ r. r.self_port_num) (port_set i s t (new_port n c h) lt refl) in
        let p = request a (port_at u.ports i) syn in
        rw (connected k a i t made) (
          Turns-then i s u (tcp_enqueue_reliable env alone p Timeout.max_delay (opening u i)).1
            (record (port_at u.ports i) { state = syn_sent }) f lt
            (ports-tcp_enqueue_reliable env p Timeout.max_delay (opening u i))
            (connects refl free refl
              (own, ap (λ r. r.other_port_num) here, ap (λ r. r.other_ipv4_addr) here)))
  ]

-- The port that is closed, and the state with it.
abbrev with_closing : Sys → ℕ → Sys
with_closing s i = record s {
  ports = set s.ports i (record (port_at s.ports i) { state = fin_wait_1 });
}

find_port-at :
    (n k : ℕ) (a : Ipv4Addr) (ports : List Port) (i : ℕ)
    → find_port n k a ports ≡ some i
    → (i < length ports) × IsConnection n k a (port_at ports i)
find_port-at n k a ports i h =
    let f = (find_port_iff n k a ports i).0 h in
    (
      lt-of-get_elem? ports i f.item f.at,
      rw (get_or-of-get_elem? ports i port_zero f.item f.at) f.holds,
    )

closed_unfound :
    (env : Env) (n k : ℕ) (a : Ipv4Addr) (s : Sys)
    → find_port n k a s.ports ≡ none
    → (tcp_close_port_internal env n k a s).1 ≡ s
unfolding tcp_close_port_internal
closed_unfound env n k a s missing = ground (arith, missing)

closed_found :
    (env : Env) (n k : ℕ) (a : Ipv4Addr) (s : Sys) (i : ℕ)
    → find_port n k a s.ports ≡ some i
    → tcp_close_port_internal env n k a s
      ≡ tcp_enqueue_reliable env alone
          (request a (port_at s.ports i) fin)
          Timeout.max_delay
          (with_closing s i)
unfolding tcp_close_port_internal
closed_found env n k a s i found = ground (arith, found)

tcp_close_port_internal-Turns :
    (env : Env) (n k : ℕ) (a : Ipv4Addr) (c : Callbacks) (s : Sys)
    → Turns (to_run (command CmdType.cmd_close n k a c)) s (tcp_close_port_internal env n k a s).1
tcp_close_port_internal-Turns env n k a c s = elim (Option-cases (find_port n k a s.ports)) [
  | inl missing ↦ rw (closed_unfound env n k a s missing) (Turns-same s s refl)
  | inr (i, found) ↦
      let p = request a (port_at s.ports i) fin in
      let (lt, own) = find_port-at n k a s.ports i found in
      rw (closed_found env n k a s i found) (
        Turns-set i s (tcp_enqueue_reliable env alone p Timeout.max_delay (with_closing s i)).1
          (record (port_at s.ports i) { state = fin_wait_1 }) lt
          (ports-tcp_enqueue_reliable env p Timeout.max_delay (with_closing s i))
          (closes refl own refl))
]

of_type-Turns :
    (env : Env) (t : CmdType) (n k : ℕ) (a : Ipv4Addr) (c : Callbacks) (s : Sys)
    → let cmd = command t n k a c in Turns (to_run cmd) s (run_cmd env cmd s).1
unfolding run_cmd
of_type-Turns env CmdType.cmd_create_and_connect n k a c s =
    tcp_connect_port_internal-Turns env n c s k a
of_type-Turns env CmdType.cmd_create_and_listen n k a c s =
    tcp_listen_port_internal-Turns env n c s k a
of_type-Turns env CmdType.cmd_close n k a c s = tcp_close_port_internal-Turns env n k a c s

pub run_cmd-Turns :
    (env : Env) (cmd : PortCmd) (s : Sys) → Turns (to_run cmd) s (run_cmd env cmd s).1
run_cmd-Turns env cmd s =
    of_type-Turns env cmd.type cmd.self_port_num cmd.other_port_num cmd.other_ipv4_addr
      cmd.callbacks s
