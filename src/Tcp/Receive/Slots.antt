-- ===== src/Tcp/Receive/Slots.antt =====
-- tcp.c: what an acknowledgement does to the slots of a port.
use ip.Base.{
  ℕ, zero, suc, ◌≡◌, ◌≤◌, ◌<◌, refl, arith, Bool, true, false, leb, if◌then◌else◌, List, [], ◌∷◌,
  ◌++◌, Option, none, some, skip, ◌>>◌, get_elem?, ◌&&◌, Bool-cases, inl, inr,
}
use mathlib.Core.List.{append_assoc, append-nil}
use ip.Os.{Buf, Call}
use ip.Sys.{Sys, Unacked, sem_give, free_buf}
use ip.Tcp.Acks.{is_acked, ack_slots}

-- Does an acknowledgement of `ack_num` cover the start of the segment in a slot?
abbrev covers : ℕ → Unacked → Bool
covers ack_num u = u.in_use && leb u.seq_num ack_num

-- The slots after an acknowledgement.
abbrev pub acked_slots : ℕ → List Unacked → List Unacked
acked_slots ack_num [] = []
acked_slots ack_num (u ∷ us) =
    (if covers ack_num u then record u { in_use = false; payload = none } else u)
    ∷ acked_slots ack_num us

abbrev pub free_calls : Option Buf → List Call
free_calls none = []
free_calls (some b) = Call.free b.addr ∷ []

-- The calls for a slot that is released, newest first: the semaphore is given once, and the
-- payload, if there is one, freed once.
abbrev pub release_calls : ℕ → Unacked → List Call
release_calls slots u = free_calls u.payload ++ (Call.sem_give slots ∷ [])

abbrev pub ack_calls : ℕ → ℕ → List Unacked → List Call
ack_calls ack_num slots [] = []
ack_calls ack_num slots (u ∷ us) =
    ack_calls ack_num slots us ++ (if covers ack_num u then release_calls slots u else [])

pub ack_slots_lem :
    (ack_num slots : ℕ) (us : List Unacked) (s : Sys)
    → ack_slots ack_num slots us s
      ≡ (acked_slots ack_num us, record s { log = ack_calls ack_num slots us ++ s.log })
unfolding ack_slots
ack_slots_lem ack_num slots [] s = refl
ack_slots_lem ack_num slots (u ∷ us) s = ground (
  arith,
  released,
  ack_slots_lem ack_num slots us s,
  ack_slots_lem ack_num slots us (record s { log = calls ++ s.log }),
  append_assoc (ack_calls ack_num slots us) calls s.log,
)
  where
    calls : List Call
    calls = if covers ack_num u then release_calls slots u else []

    released :
        (if is_acked ack_num u then (do sem_give slots; free_buf u.payload) else skip) s
        ≡ (tt, record s { log = calls ++ s.log })
    released = ground arith

-- What an acknowledgement makes of slots, and the calls for it, newest first. A slot in use whose
-- segment starts at the acknowledged number or below it is emptied; a slot that is not in use, or
-- whose segment starts above it, stays as it is, and nothing is called for it.
pub data Acked (ack_num slots : ℕ) : List Unacked → List Unacked → List Call → Type 0 where
  done : Acked ack_num slots [] [] []
  releases :
      {u : Unacked} {us vs : List Unacked} {calls : List Call}
      → u.in_use ≡ true
      → u.seq_num ≤ ack_num
      → Acked ack_num slots us vs calls
      → Acked ack_num slots
          (u ∷ us)
          (record u { in_use = false; payload = none } ∷ vs)
          (calls ++ release_calls slots u)
  keeps_free :
      {u : Unacked} {us vs : List Unacked} {calls : List Call}
      → u.in_use ≡ false
      → Acked ack_num slots us vs calls
      → Acked ack_num slots (u ∷ us) (u ∷ vs) calls
  keeps_later :
      {u : Unacked} {us vs : List Unacked} {calls : List Call}
      → u.in_use ≡ true
      → ack_num < u.seq_num
      → Acked ack_num slots us vs calls
      → Acked ack_num slots (u ∷ us) (u ∷ vs) calls

acked_slots-Acked :
    (ack_num slots : ℕ) (us : List Unacked)
    → Acked ack_num slots us (acked_slots ack_num us) (ack_calls ack_num slots us)
acked_slots-Acked ack_num slots [] = done
acked_slots-Acked ack_num slots (u ∷ us) =
    let rest = acked_slots-Acked ack_num slots us in
    elim (Bool-cases (covers ack_num u)) [
      | inl covered ↦ rw covered (releases (ground (arith, covered)) (ground (arith, covered)) rest)
      | inr kept ↦
          rw (kept, append-nil (ack_calls ack_num slots us))
            (elim (Bool-cases u.in_use) [
              | inr free ↦ keeps_free free rest
              | inl used ↦ keeps_later used (ground (arith, kept, used)) rest
            ])
    ]

-- An acknowledgement empties exactly the slots in use whose segment starts at the acknowledged
-- number or below it; for each it gives the semaphore once and frees the payload once, if there is
-- one, and it makes no other call and changes nothing else.
pub ack_slots-Acked :
    (ack_num slots : ℕ) (us : List Unacked) (s : Sys)
    → let (left, t) = ack_slots ack_num slots us s in
      (calls : List Call) × Acked ack_num slots us left calls
      × (t ≡ record s { log = calls ++ s.log })
ack_slots-Acked ack_num slots us s =
    rw (ack_slots_lem ack_num slots us s)
      (ack_calls ack_num slots us, acked_slots-Acked ack_num slots us, refl)

acked_slots_at :
    (ack_num : ℕ) (us : List Unacked) (j : ℕ) (u : Unacked)
    → get_elem? us j ≡ some u
    → get_elem? (acked_slots ack_num us) j
      ≡ some (if covers ack_num u then record u { in_use = false; payload = none } else u)
acked_slots_at ack_num [] j u h = cc
acked_slots_at ack_num (v ∷ vs) zero u h = ground arith
acked_slots_at ack_num (v ∷ vs) (suc j) u h = acked_slots_at ack_num vs j u h

-- A slot in use whose segment starts at the acknowledged number or below it is emptied, also if it
-- starts right at it, so that none of its bytes is acknowledged; any other slot stays as it is.
pub ack_slots_at :
    (ack_num slots : ℕ) (us : List Unacked) (s : Sys) (j : ℕ) (u : Unacked)
    → get_elem? us j ≡ some u
    → get_elem? (ack_slots ack_num slots us s).0 j
      ≡ some (
          if u.in_use && leb u.seq_num ack_num
          then record u { in_use = false; payload = none }
          else u)
ack_slots_at ack_num slots us s j u at =
    rw (ack_slots_lem ack_num slots us s) (acked_slots_at ack_num us j u at)
