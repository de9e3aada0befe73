-- ===== src/Snmp/Observe/Reconciled.antt =====
-- internal/snmpload/observe.go: when an episode counts as resolved.
use oscar_corrtest.Base.{
  ℕ, ◌≡◌, ◌↔◌, refl, ap, String, Bool, true, false, ◌&&◌, ◌||◌, not, List, [], ◌∷◌, str_eq, any,
  all, keep, if◌then◌else◌, arith, eq_iff, Bool-cases, inl, inr, and-eq-true,
}
use oscar_corrtest.Snmp.Fixture.{Episode}
use oscar_corrtest.Snmp.Observe.{
  HistoryRecord, Observation, has_identity, is_clear, is_problem, is_episode_row, clears_problem,
  of_matches, of_clears, observe_rows, many_state, single_state, is_settled, blank,
}

many_unresolved :
    (r : HistoryRecord) (more : List HistoryRecord) → str_eq (many_state r more) "resolved" ≡ false
many_unresolved r more = elim (Bool-cases (has_identity r && all (λ x. str_eq x.id r.id) more)) [
  | inl one ↦ rw one refl
  | inr several ↦ rw several refl
]

resolved_only :
    (s : String)
    → str_eq s "resolved" ≡ true
    → (str_eq s "duplicate" ≡ false) × (str_eq s "mismatch" ≡ false)
resolved_only s h = (
  ap (λ t. str_eq t "duplicate") ((eq_iff s "resolved").0 h),
  ap (λ t. str_eq t "mismatch") ((eq_iff s "resolved").0 h),
)

many_loses :
    (m : String) (o : Observation)
    → str_eq m "resolved" ≡ false
    → str_eq
        (if str_eq m "duplicate"
            || (not (str_eq o.state "duplicate") && not (str_eq o.state "mismatch"))
          then record o { state = m }
          else o).state
        "resolved"
      ≡ false
many_loses m o h =
    elim (Bool-cases (
      str_eq m "duplicate"
      || (not (str_eq o.state "duplicate") && not (str_eq o.state "mismatch")))) [
        | inl wins ↦ rw wins h
        | inr loses ↦ rw loses (elim (Bool-cases (str_eq o.state "resolved")) [
          | inl done ↦ let (one, two) = resolved_only o.state done in absurd (ground arith)
          | inr pending ↦ pending
        ])
      ]

missing_loses :
    (o : Observation)
    → str_eq
        (if str_eq o.state "resolved" then record o { state = "clear-missing" } else o).state
        "resolved"
      ≡ false
missing_loses o = elim (Bool-cases (str_eq o.state "resolved")) [
  | inl done ↦ rw done refl
  | inr pending ↦ rw pending pending
]

single_step :
    (b : Bool) (status : String)
    → str_eq (if b then status else "mismatch") "resolved" ≡ true
    → (b ≡ true) × (str_eq status "resolved" ≡ true)
single_step true status h = (refl, h)
single_step false status h = cc

clear_step :
    (o : Observation) (clear : HistoryRecord) (k : Bool)
    → str_eq
        (if is_settled o.state
          then record o {
            clear_history_id = clear.id;
            clear_fingerprint = clear.fingerprint;
            state = if k then o.state else "mismatch";
          }
          else o).state
        "resolved"
      ≡ true
    → (str_eq o.state "resolved" ≡ true) × (k ≡ true)
clear_step o clear true h = elim (Bool-cases (is_settled o.state)) [
  | inl settled ↦ (rw settled at h, refl)
  | inr open_state ↦ (rw open_state at h, refl)
]
clear_step o clear false h = elim (Bool-cases (is_settled o.state)) [
  | inl settled ↦ cc (rw settled at h)
  | inr open_state ↦ let done = rw open_state at h in absurd (ground arith)
]

module _ (equal_fold : String → String → Bool) (e : Episode) where
  -- Which rows make an episode resolved.
  abbrev pub IsReconciled : List HistoryRecord → Type 0
  IsReconciled rows =
      (problem : HistoryRecord) × (clear : HistoryRecord) × (keep is_problem rows ≡ problem ∷ [])
      × (keep is_clear rows ≡ clear ∷ [])
      × (is_episode_row equal_fold e problem ≡ true)
      × (str_eq problem.status "resolved" ≡ true)
      × (clears_problem equal_fold e problem clear ≡ true)

  abbrev state_of : List HistoryRecord → List HistoryRecord → Observation → String
  state_of ms cs o = (of_clears equal_fold e ms cs (of_matches equal_fold e ms o)).state

  one_resolved :
      (p c : HistoryRecord) (o : Observation)
      → str_eq (state_of (p ∷ []) (c ∷ []) o) "resolved" ≡ true
      → (is_episode_row equal_fold e p ≡ true)
        × (str_eq p.status "resolved" ≡ true)
        × (clears_problem equal_fold e p c ≡ true)
  one_resolved p c o h =
      let found = record o {
        history_id = p.id;
        fingerprint = p.fingerprint;
        state = single_state equal_fold e p;
      } in
      let (kept, clears) = clear_step found c (clears_problem equal_fold e p c) h in
      let (fits, ended) =
        single_step
          (is_episode_row equal_fold e p
            && (str_eq p.status "resolved" || str_eq p.status "firing"))
          p.status kept in
      ((and-eq-true (is_episode_row equal_fold e p) _ fits).0, ended, clears)

  resolved_parts :
      (ms cs : List HistoryRecord) (o : Observation)
      → str_eq o.state "resolved" ≡ false
      → str_eq (state_of ms cs o) "resolved" ≡ true
      → (problem : HistoryRecord) × (clear : HistoryRecord) × (ms ≡ problem ∷ [])
        × (cs ≡ clear ∷ [])
        × (is_episode_row equal_fold e problem ≡ true)
        × (str_eq problem.status "resolved" ≡ true)
        × (clears_problem equal_fold e problem clear ≡ true)
  resolved_parts [] [] o b h = absurd (ground arith)
  resolved_parts [] (c ∷ []) o b h = absurd (ground arith)
  resolved_parts [] (c ∷ d ∷ more) o b h =
      cc (many_loses (many_state c (d ∷ more)) o (many_unresolved c (d ∷ more)), h)
  resolved_parts (p ∷ []) [] o b h = cc (
    missing_loses (record o {
      history_id = p.id;
      fingerprint = p.fingerprint;
      state = single_state equal_fold e p;
    }),
    h,
  )
  resolved_parts (p ∷ []) (c ∷ []) o b h =
      let (fits, ended, clears) = one_resolved p c o h in (p, c, refl, refl, fits, ended, clears)
  resolved_parts (p ∷ []) (c ∷ d ∷ more) o b h = cc (
    many_loses (many_state c (d ∷ more))
        (record o {
          history_id = p.id;
          fingerprint = p.fingerprint;
          state = single_state equal_fold e p;
        })
        (many_unresolved c (d ∷ more)),
    h,
  )
  resolved_parts (p ∷ q ∷ ms) [] o b h =
      cc (missing_loses (record o { state = many_state p (q ∷ ms) }), h)
  resolved_parts (p ∷ q ∷ ms) (c ∷ []) o b h = cc (many_unresolved p (q ∷ ms), h)
  resolved_parts (p ∷ q ∷ ms) (c ∷ d ∷ more) o b h = cc (
    many_loses (many_state c (d ∷ more)) (record o { state = many_state p (q ∷ ms) })
        (many_unresolved c (d ∷ more)),
    h,
  )

  -- An episode is resolved exactly if, of its rows, one is a problem and one is a clear, the problem is the
  -- episode's own by token, identity, agent, group and severity and is resolved, and the clear is another,
  -- resolved row of the same correlation key that reports one correlation with success.
  pub observe_rows_iff :
      (n : ℕ) (rows : List HistoryRecord)
      → (str_eq (observe_rows equal_fold n e rows).state "resolved" ≡ true) ↔ IsReconciled rows
  observe_rows_iff n rows = (
    λ h.
        resolved_parts (keep is_problem rows) (keep is_clear rows)
          (record (blank n) {
            problem_firing = any (λ r. is_problem r && str_eq r.status "firing") rows;
          })
          refl h,
    λ (p, c, problems, clears, fits, ended, matched).
        rw (problems, clears) (rw (fits, ended) (rw (ended, matched) ended)),
  )
