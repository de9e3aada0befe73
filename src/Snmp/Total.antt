-- ===== src/Snmp/Total.antt =====
-- internal/snmpload/plan.go: when compilation succeeds.
use oscar_corrtest.Base.{
  ℕ, zero, suc, ◌+◌, ◌*◌, ◌%◌, ◌≤◌, ◌<◌, ◌≡◌, refl, ◌↔◌, inl, inr, String, Bool, true, [], ◌∷◌,
  get_or, length, length-append, any, ok, Result-cases, >>=-eq-ok, arith, str_eq, Option-cases,
  Bool-cases, inl, inr,
}
use native.Mathlib.Nat.{mul-le-mul}
use oscar_corrtest.Snmp.{
  Options, Plan, Load, Slot, offer_slot, repeat_slot, clear_slot, announce, begin, families,
  family_of, find_clear, find_repeat, clear_one, repeat_one, fill, offer, offer_time, slot_of,
  empty_load, finish, compile, validate,
}
use oscar_corrtest.Snmp.Moves.{Move, announced, cleared, repeated, fill-Move, compile_parts}
use oscar_corrtest.Snmp.Fixture.{Episode, fixture, run_id_ok, by_family}

abbrev known_family : String → Bool
known_family f = any (λ g. str_eq f g) families

by_family_total :
    (run_id : String) (sequence : ℕ) (family : String)
    → known_family family ≡ true
    → (e : Episode) × (by_family run_id sequence family ≡ ok e)
unfolding by_family
by_family_total run_id sequence family known =
    elim (Result-cases (by_family run_id sequence family)) [
      | inl found ↦ found
      | inr (e, failed) ↦ absurd (ground arith)
    ]

fixture_total :
    (run_id : String) (sequence : ℕ) (family : String)
    → run_id_ok run_id ≡ true
    → sequence ≤ 15000
    → known_family family ≡ true
    → (e : Episode) × (fixture run_id sequence family ≡ ok e)
unfolding fixture
fixture_total run_id sequence family valid small known =
    let (e, found) = by_family_total run_id sequence family known in (e, ground arith)

mixed_known :
    (k : ℕ)
    → k < 10
    → known_family (get_or families (get_or (0 ∷ 1 ∷ 2 ∷ 3 ∷ 0 ∷ 1 ∷ 0 ∷ 2 ∷ 1 ∷ 0 ∷ []) k 0) "")
      ≡ true
mixed_known zero h = refl
mixed_known (suc zero) h = refl
mixed_known (suc (suc zero)) h = refl
mixed_known (suc (suc (suc zero))) h = refl
mixed_known (suc (suc (suc (suc zero)))) h = refl
mixed_known (suc (suc (suc (suc (suc zero))))) h = refl
mixed_known (suc (suc (suc (suc (suc (suc zero)))))) h = refl
mixed_known (suc (suc (suc (suc (suc (suc (suc zero))))))) h = refl
mixed_known (suc (suc (suc (suc (suc (suc (suc (suc zero)))))))) h = refl
mixed_known (suc (suc (suc (suc (suc (suc (suc (suc (suc zero))))))))) h = refl
mixed_known (suc (suc (suc (suc (suc (suc (suc (suc (suc (suc k)))))))))) h = absurd (omega arith)

family_known : (o : Options) (id : ℕ) → validate o ≡ ok tt → known_family (family_of o id) ≡ true
unfolding validate
family_known o id h = elim (Bool-cases (str_eq o.profile "mixed")) [
  | inl mixed ↦ rw mixed (mixed_known (id % 10) (omega arith))
  | inr one ↦ rw one (ground arith)
]

begin_total :
    (run_id : String) (o : Options) (s : Load) (at : ℕ)
    → run_id_ok run_id ≡ true
    → validate o ≡ ok tt
    → length s.episodes ≤ 15000
    → (s' : Load) × (begin run_id o s at ≡ ok s')
unfolding begin
begin_total run_id o s at valid opts small =
    let id = length s.episodes in
    let (e, found) =
      fixture_total run_id id (family_of o id) valid small (family_known o id opts) in
    (announce s at e, rw found)

fill_total :
    (run_id : String) (o : Options) (slot : Slot) (s : Load) (at : ℕ)
    → run_id_ok run_id ≡ true
    → validate o ≡ ok tt
    → length s.episodes ≤ 15000
    → (s' : Load) × (fill run_id o slot s at ≡ ok s')
unfolding fill
fill_total run_id o offer_slot s at valid opts small = begin_total run_id o s at valid opts small
fill_total run_id o clear_slot s at valid opts small = elim (Option-cases (find_clear o s at)) [
  | inl missed ↦
      let (s', started) = begin_total run_id o s at valid opts small in
      (s', rw (missed, fill) started)
  | inr (c, found) ↦ (clear_one s at c, rw (found, fill))
]
fill_total run_id o repeat_slot s at valid opts small =
    elim (Option-cases (find_repeat o s.created s.repeated at s.pending)) [
      | inl missed ↦
          let (s', started) = begin_total run_id o s at valid opts small in
          (s', rw (missed, fill) started)
      | inr (n, found) ↦ (repeat_one s at n, rw (found, fill))
    ]

Move-length :
    {o : Options} {s : Load} {at : ℕ} {s' : Load}
    → Move o s at s'
    → length s'.episodes ≤ suc (length s.episodes)
Move-length {s} (announced e) = omega (arith, length-append {0} s.episodes (e ∷ []))
Move-length (cleared n ns front due) = omega arith
Move-length (repeated n here due) = omega arith

offer_total :
    (run_id : String) (o : Options) (left i : ℕ) (s : Load)
    → run_id_ok run_id ≡ true
    → validate o ≡ ok tt
    → length s.episodes + left ≤ 15000
    → (s' : Load) × (offer run_id o left i s ≡ ok s')
unfolding offer
offer_total run_id o zero i s valid opts small = (s, refl)
offer_total run_id o (suc left) i s valid opts small =
    let (t, step) = fill_total run_id o (slot_of i) s (offer_time o i) valid opts (omega arith) in
    let grown = Move-length (fill-Move run_id o (slot_of i) s t (offer_time o i) step) in
    let (s', rest) = offer_total run_id o left (i + 1) t valid opts (omega (arith, grown)) in
    (s', rw step rest)

load_small :
    (o : Options) → validate o ≡ ok tt → (10 ≤ o.rate * o.duration) × (o.rate * o.duration ≤ 15000)
unfolding validate
load_small o h =
    let in_range : (1 ≤ o.rate) × (o.rate ≤ 25) × (10 ≤ o.duration) × (o.duration ≤ 600) =
      (ground arith, ground arith, ground arith, ground arith) in
    (mul-le-mul {n₁ = 1} in_range.0 in_range.2, mul-le-mul {n₂ = 25} in_range.1 in_range.3)

compile_total :
    (run_id : String) (o : Options)
    → run_id_ok run_id ≡ true
    → validate o ≡ ok tt
    → (plan : Plan) × (compile run_id o ≡ ok plan)
unfolding compile
compile_total run_id o valid opts =
    let (s, offered) =
      offer_total run_id o (o.rate * o.duration) 0 empty_load valid opts
        (omega (arith, (load_small o opts).1)) in
    (finish run_id o s, rw (opts, offered))

fixture_needs_id :
    (run_id : String) (sequence : ℕ) (family : String) (e : Episode)
    → fixture run_id sequence family ≡ ok e
    → run_id_ok run_id ≡ true
unfolding fixture
fixture_needs_id run_id sequence family e h = ground arith

-- The first slot opens an episode.
offer_needs_id :
    (run_id : String) (o : Options) (s : Load) (rounds : ℕ)
    → 10 ≤ rounds
    → offer run_id o rounds 0 empty_load ≡ ok s
    → run_id_ok run_id ≡ true
unfolding offer fill begin
offer_needs_id run_id o s zero h k = absurd (omega arith)
offer_needs_id run_id o s (suc left) h k =
    let (t, step, rest) = >>=-eq-ok (begin run_id o empty_load (offer_time o 0)) _ k in
    let (e, found, same) = >>=-eq-ok (fixture run_id 0 (family_of o 0)) _ step in
    fixture_needs_id run_id 0 (family_of o 0) e found

-- `Compile` returns a plan exactly for the option sets that `Validate` accepts and the run
-- identities that match the fixture's pattern.
pub compile_iff :
    (run_id : String) (o : Options)
    → ((plan : Plan) × (compile run_id o ≡ ok plan))
      ↔ ((validate o ≡ ok tt) × (run_id_ok run_id ≡ true))
compile_iff run_id o = (needs, λ (opts, valid). compile_total run_id o valid opts)
  where
    needs :
        ((plan : Plan) × (compile run_id o ≡ ok plan))
        → (validate o ≡ ok tt) × (run_id_ok run_id ≡ true)
    needs (plan, h) =
        let (s, opts, offered, same) = compile_parts run_id o plan h in
        (opts, offer_needs_id run_id o s (o.rate * o.duration) (load_small o opts).0 offered)
