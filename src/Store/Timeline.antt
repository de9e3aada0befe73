-- ===== src/Store/Timeline.antt =====
-- internal/persistence/sqlite/run_repository.go: the events of a run are numbered from one, in order
-- and without a gap, whatever the journal does and whatever calls fail.
pub mod Ops
pub mod Growth
use oscar_corrtest.Base.{
  ℕ, zero, suc, ◌+◌, ◌≤◌, ◌≡◌, refl, sym, ap, ◌∷◌, [], String, Bool, true, false, ◌&&◌, ◌||◌, not,
  List, ◌++◌, Result, ok, err, ◌>>=◌, ◌>>◌, refuse_if, if◌then◌else◌, str_eq, ltb, ◌==◌, keep,
  length, any, Bool-cases, >>=-eq-ok, ok-injective, refuse_if-eq-ok, arith, ◌⊎◌, inl, inr, eq_iff,
}
use mathlib.Core.List.{append_assoc, append-nil}
use oscar_corrtest.Run.{is_zero}
use oscar_corrtest.Run.Responsibility.{RunEvent}
use oscar_corrtest.Store.{
  Db, Call, Outcome, call, allocate, insert_event, of_run, last_sequence, append_event,
  event_refused, number_event, incomplete, bad_json,
}
use oscar_corrtest.Store.Recovery.{timeline}

-- The sequence numbers go up by one from a start.
abbrev pub Numbered : ℕ → List RunEvent → Type 0
Numbered n [] = Unit
Numbered n (e ∷ es) = (e.sequence ≡ suc n) × Numbered (suc n) es

abbrev pub IsNumbered : List RunEvent → Type 0
IsNumbered es = (id : String) → Numbered 0 (timeline id es)

pub keep-append {ℓ} :
    {A : Type ℓ} (p : A → Bool) (xs ys : List A) → keep p (xs ++ ys) ≡ keep p xs ++ keep p ys
keep-append p [] ys = refl
keep-append p (x ∷ xs) ys = elim (Bool-cases (p x)) [
  | inl kept ↦ rw kept (ap (λ r. x ∷ r) (keep-append p xs ys))
  | inr dropped ↦ rw dropped (keep-append p xs ys)
]

Numbered-snoc :
    (n : ℕ) (xs : List RunEvent) (e : RunEvent)
    → Numbered n xs
    → e.sequence ≡ suc (n + length xs)
    → Numbered n (xs ++ e ∷ [])
Numbered-snoc n [] e h k = (omega (arith, k), tt)
Numbered-snoc n (x ∷ xs) e (p, h) k = (p, Numbered-snoc (suc n) xs e h (omega (arith, k)))

last_of_Numbered :
    (id : String) (n : ℕ) (es : List RunEvent)
    → Numbered n (timeline id es)
    → last_sequence id es
      ≡ (if length (timeline id es) == 0 then 0 else n + length (timeline id es))
unfolding last_sequence
last_of_Numbered id n [] h = refl
last_of_Numbered id n (e ∷ es) h = elim (Bool-cases (of_run id e)) [
  | inl own ↦
      let (p, k) = rw own at h in
      let rest = last_of_Numbered id (suc n) es k in rw own (ground (arith, rest, p))
  | inr foreign ↦ let rest = last_of_Numbered id n es (rw foreign at h) in rw foreign rest
]

pub last_is_length :
    (id : String) (es : List RunEvent)
    → Numbered 0 (timeline id es)
    → last_sequence id es ≡ length (timeline id es)
last_is_length id es h = ground (arith, last_of_Numbered id 0 es h)

pub appended-IsNumbered :
    (db : Db) (e : RunEvent)
    → IsNumbered db.events
    → IsNumbered (db.events ++ number_event db e ∷ [])
appended-IsNumbered db e h id =
    rw (keep-append (of_run id) db.events (number_event db e ∷ []))
      (elim (Bool-cases (of_run id e)) [
        | inl own ↦
            let same : e.run_id ≡ id = ground (arith, eq_iff e.run_id id) in
            rw own (
              Numbered-snoc 0 (timeline id db.events) (number_event db e) (h id) (
                rw (ap (λ x. last_sequence x db.events) same, last_is_length id db.events (h id))
                  (omega arith)))
        | inr foreign ↦ rw (foreign, append-nil) (h id)
      ])

-- No event of the run has the next number yet.
pub number_free :
    (id : String) (k : ℕ) (es : List RunEvent)
    → last_sequence id es ≤ k
    → any (λ x. of_run id x && (x.sequence == suc k)) es ≡ false
unfolding last_sequence
number_free id k [] h = refl
number_free id k (e ∷ es) h = ground (arith, number_free id k es)

pub append_parts :
    (broken : Call → Bool) (e : RunEvent) (db : Db) {after : Db}
    → append_event broken e db ≡ ok after
    → (after ≡ record db { events = db.events ++ number_event db e ∷ [] })
      × (incomplete e ≡ false)
      × (event_refused db (number_event db e) ≡ false)
unfolding append_event
append_parts broken e db h =
    let (whole, h1) = refuse_if-eq-ok (incomplete e) _ _ h in
    let (json, h2) = refuse_if-eq-ok (bad_json e.detail) _ _ h1 in
    let (up1, h3) = refuse_if-eq-ok (broken (allocate e.run_id)) _ _ h2 in
    let (up2, h4) = refuse_if-eq-ok (broken (insert_event e.run_id)) _ _ h3 in
    let (fits, h5) = refuse_if-eq-ok (event_refused db (number_event db e)) _ _ h4 in
    (sym (ok-injective h5), whole, fits)
