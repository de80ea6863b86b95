-- ===== src/Tcp/Task/Creation.antt =====
-- tcp.c: what `tcp_create_port_internal` does to the table.
use ip.Base.{
  ℕ, ◌<◌, ◌≡◌, arith, List, length, set, Option, none, some, ◌==◌, ◌∷◌, search_from, search_iff,
  Option-cases, inl, inr, ◌⊎◌, ==_iff, lt-of-get_elem?, get_or-of-get_elem?,
}
use ip.Os.{Env, Call, Callbacks}
use ip.Sys.{Sys, Port, port_zero}
use ip.Tcp.Ports.{port_at, allocate_port}
use ip.Tcp.Commands.{new_port, tcp_create_port_internal}

-- The entry that a new port goes to.
abbrev free_entry : List Port → Option ℕ
free_entry ports = search_from (λ p. p.self_port_num == 0) 0 ports

free_entry-at :
    (ports : List Port) (i : ℕ)
    → free_entry ports ≡ some i
    → (i < length ports) × ((port_at ports i).self_port_num ≡ 0)
free_entry-at ports i h =
    let f =
      (search_iff (λ (p : Port). p.self_port_num == 0) (λ (p : Port). p.self_port_num ≡ 0)
          (λ p. ==_iff p.self_port_num 0) i ports).0
        h in
    (
      lt-of-get_elem? ports i f.item f.at,
      rw (get_or-of-get_elem? ports i port_zero f.item f.at) f.holds,
    )

-- The state once a new semaphore has been asked for.
abbrev pub asked : Env → Sys → Sys
asked env s = record s { log = Call.sem_create (env.sem_new s.log) ∷ s.log }

module _ (env : Env) (n : ℕ) (c : Callbacks) (s : Sys) where
  created :
      (h i : ℕ)
      → env.sem_new s.log ≡ some h
      → free_entry s.ports ≡ some i
      → tcp_create_port_internal env n c s
        ≡ (some i, record (asked env s) { ports = set s.ports i (new_port n c h) })
  unfolding tcp_create_port_internal allocate_port
  created h i got free = ground (arith, got, free)

  not_created :
      (env.sem_new s.log ≡ none) ⊎ (free_entry s.ports ≡ none)
      → tcp_create_port_internal env n c s ≡ (none, asked env s)
  unfolding tcp_create_port_internal allocate_port
  not_created (inl none_left) = ground (arith, none_left)
  not_created (inr full) = elim (Option-cases (env.sem_new s.log)) [
    | inl none_left ↦ ground (arith, none_left)
    | inr (h, got) ↦ ground (arith, got, full)
  ]

  -- A new port is put into a free entry of the table, or nothing changes.
  pub tcp_create_port_internal-cases :
      ((tcp_create_port_internal env n c s) ≡ (none, asked env s))
      ⊎ ((i : ℕ) × (h : ℕ) × (i < length s.ports)
          × ((port_at s.ports i).self_port_num ≡ 0)
          × (tcp_create_port_internal env n c s
              ≡ (some i, record (asked env s) { ports = set s.ports i (new_port n c h) })))
  tcp_create_port_internal-cases = elim (Option-cases (env.sem_new s.log)) [
    | inl none_left ↦ inl (not_created (inl none_left))
    | inr (h, got) ↦ elim (Option-cases (free_entry s.ports)) [
      | inl full ↦ inl (not_created (inr full))
      | inr (i, free) ↦
          let at = free_entry-at s.ports i free in inr (i, h, at.0, at.1, created h i got free)
    ]
  ]
