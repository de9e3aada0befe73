-- ===== src/Snmp/Ledger.antt =====
-- internal/snmpload/plan.go: the ledger of the loops of `Compile`. Every episode that has begun was
-- announced once, and is either pending or cleared.
use oscar_corrtest.Base.{
  ℕ, ◌+◌, ◌*◌, ◌≡◌, refl, String, Bool, true, false, ◌&&◌, List, [], ◌∷◌, ltb, ◌==◌, if◌then◌else◌,
  length, tally, tally-append, length-append, ok, arith, ap,
}
use oscar_corrtest.Snmp.{
  Options, Kind, problem, clear, repeat, Packet, Plan, Load, created_at, announce, drain, later_of,
  spacing, empty_load, finish, compile,
}
use oscar_corrtest.Snmp.Moves.{Move, announced, cleared, repeated, offer_inv, compile_parts}
use oscar_corrtest.Snmp.Fixture.{Episode}

abbrev pub is_problem : Kind → Bool
is_problem problem = true
is_problem _ = false

abbrev pub is_clear : Kind → Bool
is_clear clear = true
is_clear _ = false

abbrev pub is_repeat : Kind → Bool
is_repeat repeat = true
is_repeat _ = false

abbrev pub problem_of : ℕ → Packet → Bool
problem_of n p = is_problem p.kind && p.episode == n

abbrev pub clear_of : ℕ → Packet → Bool
clear_of n p = is_clear p.kind && p.episode == n

abbrev pub repeat_of : ℕ → Packet → Bool
repeat_of n p = is_repeat p.kind && p.episode == n

abbrev pub once_below : ℕ → ℕ → ℕ
once_below n bound = if ltb n bound then 1 else 0

pub record Balanced (s : Load) : Type 0 where
  pub same_created : length s.created ≡ length s.episodes
  pub announced_once : (n : ℕ) → tally (problem_of n) s.packets ≡ once_below n (length s.episodes)
  pub accounted :
      (n : ℕ)
      → tally (clear_of n) s.packets + tally (λ m. m == n) s.pending
        ≡ once_below n (length s.episodes)

announce-Balanced : (s : Load) (at : ℕ) (e : Episode) → Balanced s → Balanced (announce s at e)
announce-Balanced s at e b = record {
  same_created = omega (
    arith,
    length-append {0} s.created (at ∷ []),
    length-append {0} s.episodes (e ∷ []),
    b.same_created,
  );
  announced_once = λ n. ground (
    arith,
    b.announced_once n,
    tally-append (problem_of n) s.packets
        (record { episode = length s.episodes; kind = problem; at_millis = at } ∷ []),
    length-append {0} s.episodes (e ∷ []),
  );
  accounted = λ n. ground (
    arith,
    b.accounted n,
    tally-append (clear_of n) s.packets
        (record { episode = length s.episodes; kind = problem; at_millis = at } ∷ []),
    tally-append (λ m. m == n) s.pending (length s.episodes ∷ []),
    length-append {0} s.episodes (e ∷ []),
  );
}

Move-Balanced :
    {o : Options} {s : Load} {at : ℕ} {s' : Load} → Move o s at s' → Balanced s → Balanced s'
Move-Balanced {s} {at} (announced e) b = announce-Balanced s at e b
Move-Balanced {s} {at} (cleared n ns front due) b = record {
  same_created = b.same_created;
  announced_once = λ m. ground (
    arith,
    b.announced_once m,
    tally-append (problem_of m) s.packets
        (record { episode = n; kind = clear; at_millis = at } ∷ []),
  );
  accounted = λ m. ground (
    arith,
    b.accounted m,
    ap (tally (λ k. k == m)) front,
    tally-append (clear_of m) s.packets (record { episode = n; kind = clear; at_millis = at } ∷ []),
  );
}
Move-Balanced {s} {at} (repeated n here due) b = record {
  same_created = b.same_created;
  announced_once = λ m. ground (
    arith,
    b.announced_once m,
    tally-append (problem_of m) s.packets
        (record { episode = n; kind = repeat; at_millis = at } ∷ []),
  );
  accounted = λ m. ground (
    arith,
    b.accounted m,
    tally-append (clear_of m) s.packets
        (record { episode = n; kind = repeat; at_millis = at } ∷ []),
  );
}

pub drain-tally :
    (o : Options) (created : List ℕ) (at : ℕ) (ids : List ℕ) (n : ℕ)
    → (tally (clear_of n) (drain o created at ids) ≡ tally (λ m. m == n) ids)
      × (tally (problem_of n) (drain o created at ids) ≡ 0)
      × (tally (repeat_of n) (drain o created at ids) ≡ 0)
unfolding drain
drain-tally o created at [] n = (refl, refl, refl)
drain-tally o created at (id ∷ ids) n = ground (
  arith,
  drain-tally o created (later_of at (created_at created id + o.clear_delay * 1000) + spacing o) ids
      n,
)

empty-Balanced : Balanced empty_load
empty-Balanced = record {
  same_created = refl;
  announced_once = λ n. ground arith;
  accounted = λ n. ground arith;
}

pub finish-Balanced :
    (run_id : String) (o : Options) (s : Load)
    → Balanced s
    → (n : ℕ)
    → (tally (problem_of n) (finish run_id o s).packets ≡ once_below n (length s.episodes))
      × (tally (clear_of n) (finish run_id o s).packets ≡ once_below n (length s.episodes))
finish-Balanced run_id o s b n = ground (
  arith,
  b.announced_once n,
  b.accounted n,
  drain-tally o s.created (o.duration * 1000) s.pending n,
  tally-append (problem_of n) s.packets (drain o s.created (o.duration * 1000) s.pending),
  tally-append (clear_of n) s.packets (drain o s.created (o.duration * 1000) s.pending),
)

-- In a compiled plan every episode has exactly one problem packet and exactly one clear packet, and
-- no packet of these kinds belongs to another episode.
pub compile_balanced :
    (run_id : String) (o : Options) (plan : Plan)
    → compile run_id o ≡ ok plan
    → (n : ℕ)
    → (tally (problem_of n) plan.packets ≡ once_below n (length plan.episodes))
      × (tally (clear_of n) plan.packets ≡ once_below n (length plan.episodes))
compile_balanced run_id o plan h n =
    let (s, _, offered, same) = compile_parts run_id o plan h in
    let b =
      offer_inv (λ i t. Balanced t) run_id o (λ i t t' b m. Move-Balanced m b) (o.rate * o.duration)
        0 empty_load s offered empty-Balanced in
    rw same (finish-Balanced run_id o s b n)
