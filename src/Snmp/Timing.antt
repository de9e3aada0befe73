-- ===== src/Snmp/Timing.antt =====
-- internal/snmpload/plan.go: when the packets of a plan are sent.
use oscar_corrtest.Base.{
  ℕ, zero, suc, ◌+◌, ◌*◌, ◌≤◌, ◌<◌, ◌≡◌, refl, String, Bool, true, false, List, [], ◌∷◌, ◌++◌, ◌==◌,
  if◌then◌else◌, get_or, set, length, length-set, tally, tally-append, length-append, get_or-append,
  get_or-append_length, All, All-append, All-map, ok, arith, sym,
}
use oscar_corrtest.Snmp.{
  Options, Kind, problem, clear, repeat, Packet, Plan, Load, created_at, announce, drain, later_of,
  spacing, empty_load, compile, validate,
}
use oscar_corrtest.Snmp.Moves.{Move, announced, cleared, repeated, offer_inv, compile_parts}
use oscar_corrtest.Snmp.Ledger.{repeat_of, drain-tally}
use oscar_corrtest.Snmp.Fixture.{Episode}

-- A packet against the times at which the episodes began.
abbrev pub KindTimely : Options → ℕ → ℕ → Kind → Type 0
KindTimely o start at problem = at ≡ start
KindTimely o start at clear = start + o.clear_delay * 1000 ≤ at
KindTimely o start at repeat = (start + 1000 ≤ at) × (at + 1000 ≤ start + o.clear_delay * 1000)

abbrev pub Timely : Options → List ℕ → Packet → Type 0
Timely o starts p =
    (p.episode < length starts) × KindTimely o (created_at starts p.episode) p.at_millis p.kind

abbrev pub mark_count : List Bool → ℕ → ℕ
mark_count marks n = if get_or marks n false then 1 else 0

record Timed (o : Options) (s : Load) : Type 0 where
  same_created : length s.created ≡ length s.episodes
  same_repeated : length s.repeated ≡ length s.episodes
  known : All (λ m. m < length s.created) s.pending
  timely : All (Timely o s.created) s.packets
  repeats : (n : ℕ) → tally (repeat_of n) s.packets ≡ mark_count s.repeated n

Timely-append :
    (o : Options) (starts : List ℕ) (x : ℕ) (p : Packet)
    → Timely o starts p
    → Timely o (starts ++ x ∷ []) p
Timely-append o starts x p (below, h) = (
  omega (arith, length-append {0} starts (x ∷ [])),
  rw (get_or-append starts (x ∷ []) p.episode 0 below) h,
)

mark_count-append :
    (marks : List Bool) (n : ℕ) → mark_count (marks ++ false ∷ []) n ≡ mark_count marks n
mark_count-append [] zero = refl
mark_count-append [] (suc n) = refl
mark_count-append (x ∷ marks) zero = refl
mark_count-append (x ∷ marks) (suc n) = mark_count-append marks n

mark_count-set :
    (marks : List Bool) (m n : ℕ)
    → m < length marks
    → get_or marks m false ≡ false
    → mark_count (set marks m true) n ≡ mark_count marks n + (if m == n then 1 else 0)
mark_count-set [] m n h k = elim h [ ]
mark_count-set (x ∷ marks) zero zero h k = ground arith
mark_count-set (x ∷ marks) zero (suc n) h k = ground arith
mark_count-set (x ∷ marks) (suc m) zero h k = ground arith
mark_count-set (x ∷ marks) (suc m) (suc n) h k = ground (arith, mark_count-set marks m n)

known_member :
    (bound : ℕ) (ids : List ℕ) (n : ℕ)
    → All (λ m. m < bound) ids
    → 1 ≤ tally (λ m. m == n) ids
    → n < bound
known_member bound [] n h k = elim k [ ]
known_member bound (m ∷ ids) n (p, h) k = ground (arith, known_member bound ids n h)

announce-Timed :
    (o : Options) (s : Load) (at : ℕ) (e : Episode) → Timed o s → Timed o (announce s at e)
announce-Timed o s at e t =
    let grown = length-append {0} s.created (at ∷ []) in
    let begun = length-append {0} s.episodes (e ∷ []) in
    record {
      same_created = omega (arith, grown, begun, t.same_created);
      same_repeated =
          omega (arith, length-append {0} s.repeated (false ∷ []), begun, t.same_repeated);
      known =
          All-append _ s.pending (length s.episodes ∷ [])
            (All-map (λ m h. omega (arith, grown)) s.pending t.known)
            (omega (arith, grown, t.same_created), tt);
      timely =
          All-append _ s.packets _ (All-map (Timely-append o s.created at) s.packets t.timely)
            ((omega (arith, grown, t.same_created), fresh), tt);
      repeats = λ n. ground (
        arith,
        t.repeats n,
        mark_count-append s.repeated n,
        tally-append (repeat_of n) s.packets (new_packet ∷ []),
      );
    }
  where
    new_packet : Packet
    new_packet = record { episode = length s.episodes; kind = problem; at_millis = at }

    fresh : at ≡ created_at (s.created ++ at ∷ []) (length s.episodes)
    fresh = rw (← t.same_created) (sym (get_or-append_length s.created at 0))

empty-Timed : (o : Options) → Timed o empty_load
empty-Timed o = record {
  same_created = refl;
  same_repeated = refl;
  known = tt;
  timely = tt;
  repeats = λ n. refl;
}

module _ (o : Options) (delayed : 1 ≤ o.clear_delay) where
  Move-Timed : {s : Load} {at : ℕ} {s' : Load} → Move o s at s' → Timed o s → Timed o s'
  Move-Timed {s} {at} (announced e) t = announce-Timed o s at e t
  Move-Timed {s} {at} (cleared n ns front due) t =
      let split : All (λ m. m < length s.created) (n ∷ ns) = rw front at t.known in
      record {
        same_created = t.same_created;
        same_repeated = t.same_repeated;
        known = split.1;
        timely = All-append _ s.packets _ t.timely ((split.0, omega arith), tt);
        repeats = λ m. ground (
          arith,
          t.repeats m,
          tally-append (repeat_of m) s.packets
              (record { episode = n; kind = clear; at_millis = at } ∷ []),
        );
      }
  Move-Timed {s} {at} (repeated n here due) t =
      let below : n < length s.created = known_member (length s.created) s.pending n t.known here in
      record {
        same_created = t.same_created;
        same_repeated = omega (arith, length-set {0} s.repeated n true, t.same_repeated);
        known = t.known;
        timely = All-append _ s.packets _ t.timely ((below, ground arith), tt);
        repeats = λ m. ground (
          arith,
          t.repeats m,
          mark_count-set s.repeated n m,
          t.same_repeated,
          t.same_created,
          tally-append (repeat_of m) s.packets
              (record { episode = n; kind = repeat; at_millis = at } ∷ []),
        );
      }

drain-Timely :
    (o : Options) (starts : List ℕ) (at : ℕ) (ids : List ℕ)
    → All (λ m. m < length starts) ids
    → All (Timely o starts) (drain o starts at ids)
unfolding drain
drain-Timely o starts at [] h = tt
drain-Timely o starts at (id ∷ ids) (p, h) = (
  (p, ground arith),
  drain-Timely o starts (later_of at (created_at starts id + o.clear_delay * 1000) + spacing o) ids
      h,
)

-- There is a list of start times, one for each episode of a compiled plan, such that every problem
-- packet is sent at its episode's start, every clear packet at least the clear delay after it, and
-- every repeat at least one second after the start and one second before the clear is due; and no
-- episode is repeated twice.
pub compile-Timely :
    (run_id : String) (o : Options) (plan : Plan)
    → compile run_id o ≡ ok plan
    → (starts : List ℕ) × (length starts ≡ length plan.episodes)
      × All (Timely o starts) plan.packets
      × ((n : ℕ) → tally (repeat_of n) plan.packets ≤ 1)
unfolding validate
compile-Timely run_id o plan h =
    let (s, valid, offered, same) = compile_parts run_id o plan h in
    let t =
      offer_inv (λ i t. Timed o t) run_id o (λ i t t' b m. Move-Timed o (ground arith) m b)
        (o.rate * o.duration) 0 empty_load s offered (empty-Timed o) in
    rw same (
      s.created,
      t.same_created,
      All-append _ s.packets _ t.timely
          (drain-Timely o s.created (o.duration * 1000) s.pending t.known),
      λ n. ground (
        arith,
        t.repeats n,
        drain-tally o s.created (o.duration * 1000) s.pending n,
        tally-append (repeat_of n) s.packets (drain o s.created (o.duration * 1000) s.pending),
      ),
    )
