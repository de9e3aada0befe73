-- ===== src/Snmp/Moves.antt =====
-- internal/snmpload/plan.go: the slots of the first loop as moves, and an invariant rule for it.
use oscar_corrtest.Base.{
  ℕ, zero, suc, ◌+◌, ◌-◌, ◌*◌, ◌≤◌, ◌≡◌, inl, inr, String, Bool, true, List, [], ◌∷◌, some, ◌==◌,
  length, tally, ok, >>=-eq-ok, ok-injective, Option-cases, Bool-cases, arith, sym,
}
use oscar_corrtest.Snmp.{
  Options, Load, Slot, offer_slot, repeat_slot, clear_slot, created_at, repeat_due, find_repeat,
  find_clear, announce, begin, clear_one, repeat_one, fill, offer, offer_time, slot_of, family_of,
  validate, compile, finish, empty_load, Plan,
}
use oscar_corrtest.Snmp.Fixture.{Episode, fixture}
use mathlib.Core.Path.{subst}

-- What a slot can do to the variables of the loop.
pub data Move (o : Options) (s : Load) (at : ℕ) : Load → Type 0 where
  announced : (e : Episode) → Move o s at (announce s at e)
  cleared :
      (n : ℕ) (ns : List ℕ)
      → s.pending ≡ n ∷ ns
      → o.clear_delay * 1000 ≤ at - created_at s.created n
      → Move o s at (clear_one s at (n, ns))
  repeated :
      (n : ℕ)
      → 1 ≤ tally (λ m. m == n) s.pending
      → repeat_due o s.created s.repeated at n ≡ true
      → Move o s at (repeat_one s at n)

find_repeat_found :
    (o : Options) (created : List ℕ) (marks : List Bool) (at : ℕ) (ns : List ℕ) (n : ℕ)
    → find_repeat o created marks at ns ≡ some n
    → (1 ≤ tally (λ m. m == n) ns) × (repeat_due o created marks at n ≡ true)
unfolding find_repeat
find_repeat_found o created marks at [] n h = cc
find_repeat_found o created marks at (m ∷ ns) n h =
    elim (Bool-cases (repeat_due o created marks at m)) [
      | inl due ↦ let same : m ≡ n = ground arith in (ground arith, rw (← same) due)
      | inr other ↦
          let (some_later, due) = find_repeat_found o created marks at ns n (rw other at h) in
          (omega arith, due)
    ]

begin-Move :
    (run_id : String) (o : Options) (s s' : Load) (at : ℕ)
    → begin run_id o s at ≡ ok s'
    → Move o s at s'
unfolding begin
begin-Move run_id o s s' at h =
    let (e, found, same) =
      >>=-eq-ok (fixture run_id (length s.episodes) (family_of o (length s.episodes))) _ h in
    subst (Move o s at) (ok-injective same) (announced e)

find_clear_found :
    (o : Options) (s : Load) (at n : ℕ) (ns : List ℕ)
    → find_clear o s at ≡ some (n, ns)
    → (s.pending ≡ n ∷ ns) × (o.clear_delay * 1000 ≤ at - created_at s.created n)
unfolding find_clear
find_clear_found o s at n ns h = ground arith

pub fill-Move :
    (run_id : String) (o : Options) (slot : Slot) (s s' : Load) (at : ℕ)
    → fill run_id o slot s at ≡ ok s'
    → Move o s at s'
unfolding fill
fill-Move run_id o offer_slot s s' at h = begin-Move run_id o s s' at h
fill-Move run_id o clear_slot s s' at h = elim (Option-cases (find_clear o s at)) [
  | inl missed ↦ begin-Move run_id o s s' at (rw (missed, fill) at h)
  | inr ((n, ns), found) ↦
      let (front, due) = find_clear_found o s at n ns found in
      subst (Move o s at) (ok-injective (rw (found, fill) at h)) (cleared n ns front due)
]
fill-Move run_id o repeat_slot s s' at h =
    elim (Option-cases (find_repeat o s.created s.repeated at s.pending)) [
      | inl missed ↦ begin-Move run_id o s s' at (rw (missed, fill) at h)
      | inr (n, found) ↦
          let (here, due) = find_repeat_found o s.created s.repeated at s.pending n found in
          subst (Move o s at) (ok-injective (rw (found, fill) at h)) (repeated n here due)
    ]

-- A property that every move keeps holds after the loop, with the number of the next round.
pub offer_inv {ℓ} :
    (P : ℕ → Load → Type ℓ) (run_id : String) (o : Options)
    → ((i : ℕ) (s s' : Load) → P i s → Move o s (offer_time o i) s' → P (i + 1) s')
    → (left i : ℕ) (s s' : Load) → offer run_id o left i s ≡ ok s'
    → P i s
    → P (i + left) s'
unfolding offer
offer_inv P run_id o keep zero i s s' h p =
    subst (λ k. P k s') (omega arith) (subst (P i) (ok-injective h) p)
offer_inv P run_id o keep (suc left) i s s' h p =
    let (t, step, rest) = >>=-eq-ok (fill run_id o (slot_of i) s (offer_time o i)) _ h in
    let p' : P (i + 1) t =
      keep i s t p (fill-Move run_id o (slot_of i) s t (offer_time o i) step) in
    subst (λ k. P k s') (omega arith) (offer_inv P run_id o keep left (i + 1) t s' rest p')

-- The parts of a successful compilation.
pub compile_parts :
    (run_id : String) (o : Options) (plan : Plan)
    → compile run_id o ≡ ok plan
    → (s : Load) × (validate o ≡ ok tt)
      × (offer run_id o (o.rate * o.duration) 0 empty_load ≡ ok s)
      × (plan ≡ finish run_id o s)
unfolding compile
compile_parts run_id o plan h =
    let (u, valid, later) = >>=-eq-ok (validate o) _ h in
    let (s, offered, same) =
      >>=-eq-ok (offer run_id o (o.rate * o.duration) 0 empty_load) _ later in
    (s, valid, offered, sym (ok-injective same))
