-- ===== src/Tcp/Ports/Touch.antt =====
-- tcp.c: what a step leaves alone in the port table.
use ip.Base.{
  ℕ, ◌<◌, ◌≡◌, ◌≢◌, sym, ap, ◌∙◌, List, length, length-set, set, get_or-set_self, get_or-set_ne,
}
use ip.Sys.{Sys, Port, port_zero}
use ip.Tcp.Ports.{port_at}

-- Only port `i` may have changed, and the table has the same length.
pub record TouchesOnly (i : ℕ) (s t : Sys) : Type 0 where
  pub size : length t.ports ≡ length s.ports
  pub others : (j : ℕ) → j ≢ i → port_at t.ports j ≡ port_at s.ports j

-- The state of port `i` has not changed either.
pub record Keeps (i : ℕ) (s t : Sys) : Type 0 where
  pub touches : TouchesOnly i s t
  pub state : (port_at t.ports i).state ≡ (port_at s.ports i).state

pub TouchesOnly-trans :
    {i : ℕ} {s t u : Sys} → TouchesOnly i s t → TouchesOnly i t u → TouchesOnly i s u
TouchesOnly-trans f g = record {
  size = g.size ∙ f.size;
  others = λ j ne. g.others j ne ∙ f.others j ne;
}

pub Keeps-trans : {i : ℕ} {s t u : Sys} → Keeps i s t → Keeps i t u → Keeps i s u
Keeps-trans f g = record {
  touches = TouchesOnly-trans f.touches g.touches;
  state = g.state ∙ f.state;
}

-- A step that leaves the table alone.
pub Keeps-same : (i : ℕ) (s t : Sys) → t.ports ≡ s.ports → Keeps i s t
Keeps-same i s t e = record {
  touches = record { size = ap length e; others = λ j ne. ap (λ (ps : List Port). port_at ps j) e };
  state = ap (λ (ps : List Port). (port_at ps i).state) e;
}

pub TouchesOnly-set : (i : ℕ) (s t : Sys) (p : Port) → t.ports ≡ set s.ports i p → TouchesOnly i s t
TouchesOnly-set i s t p e = record {
  size = ap length e ∙ length-set s.ports i p;
  others = λ j ne.
      ap (λ (ps : List Port). port_at ps j) e
      ∙ get_or-set_ne s.ports i j p port_zero (λ h. ne (sym h));
}

pub port_set :
    (i : ℕ) (s t : Sys) (p : Port)
    → i < length s.ports
    → t.ports ≡ set s.ports i p
    → port_at t.ports i ≡ p
port_set i s t p lt e =
    ap (λ (ps : List Port). port_at ps i) e ∙ get_or-set_self s.ports i p port_zero lt

pub Keeps-set :
    (i : ℕ) (s t : Sys) (p : Port)
    → i < length s.ports
    → t.ports ≡ set s.ports i p
    → p.state ≡ (port_at s.ports i).state
    → Keeps i s t
Keeps-set i s t p lt e same = record {
  touches = TouchesOnly-set i s t p e;
  state = ap (λ (q : Port). q.state) (port_set i s t p lt e) ∙ same;
}
