-- ===== src/Examples/Execution.antt =====
-- internal/persistence/sqlite: a run whose plan is stored, and which is then finalized.
use oscar_corrtest.Base.{
  ◌≡◌, refl, [], ◌∷◌, ◌++◌, none, some, true, false, Option, Result, ok, err, String, str_eq, any,
  All, tally, ◌==◌, decimal,
}
use oscar_corrtest.Base.Assoc.{find}
use oscar_corrtest.Examples.Store.{lively, journal}
use oscar_corrtest.Run.{
  cleaning_up, completed, fail, clean, status_eq, verdict_valid, cleanup_valid,
}
use oscar_corrtest.Run.Facts.{ExecutionFacts, validate_facts}
use oscar_corrtest.Run.Responsibility.{Report, attempts}
use oscar_corrtest.Store.{
  Row, Db, StoreError, find_run, append_event, event_refused, last_sequence, number_event, has_id,
}
use oscar_corrtest.Store.Documents.{
  PlanText, PlanDocument, PlanCase, set_run_execution_documents, insert_cases, insert_assertions,
  insert_attempts, insert_child, child_refused, with_documents,
}
use oscar_corrtest.Store.Documents.Inserted.{case_rows}
use oscar_corrtest.Store.Documents.Planned.{set_run_execution_documents_lem, AreDistinct, codes_of}
use oscar_corrtest.Store.Execution.{
  finalize_run, write_cases, write_assertions, write_attempts, close_rows, complete_row,
  planned_case, unjudged_assertion, planned_attempt, ended, set_where,
}
use oscar_corrtest.Store.Execution.Confined.{children_of}
use oscar_corrtest.Store.Execution.Finalized.{finalize_settles, finalize_run_lem}
use oscar_corrtest.Store.Execution.Repeats.{finalize_refuses_repeats}
use oscar_corrtest.Store.Execution.Recorded.{finalize_records, IsRecorded, IsReported}
use oscar_corrtest.Store.Moves.{all_up}
use oscar_corrtest.Store.Operations.{transition_event}

abbrev tidying : Row
tidying = record lively { run = record lively.run { status = cleaning_up } }

abbrev tidying_db : Db
tidying_db = record journal { runs = tidying ∷ [] }

abbrev case_of : String → PlanCase
case_of code = record {
  name = code;
  code = code;
  assertions = record { text = "{}"; kind = some "alert_count" } ∷ [];
  alerts = record { name = "A"; labels = []; annotations = [] } ∷ [];
}

abbrev plan : PlanText
plan = record {
  text = "{}";
  is_json = true;
  route = none;
  document =
      some (record {
        run_id = "run-1";
        pattern = "flood";
        cases = case_of "pos" ∷ case_of "neg" ∷ [];
      });
}

abbrev db_or : Db → Result {0, 0} StoreError Db → Db
db_or d (ok x) = x
db_or d (err e) = d

planned_db : Db
unfolding set_run_execution_documents insert_cases insert_assertions insert_attempts insert_child
    child_refused decimal
planned_db =
    db_or journal (set_run_execution_documents all_up "run-1" (some "{}") plan (some 2) tidying_db)

documents_set :
    set_run_execution_documents all_up "run-1" (some "{}") plan (some 2) tidying_db ≡ ok planned_db
unfolding planned_db decimal
documents_set = refl

set_run_execution_documents_lem_example :
    (document : PlanDocument) × (plan.document ≡ some document)
    × ((tally (has_id "run-1") tidying_db.runs == 1) ≡ true)
    × AreDistinct (codes_of document.cases)
    × (planned_db ≡ record tidying_db {
      runs = set_where (has_id "run-1") (with_documents (some "{}") "{}" (some 2)) tidying_db.runs;
      children = tidying_db.children ++ case_rows "run-1" document.pattern (some 2) document.cases;
    })
set_run_execution_documents_lem_example =
    set_run_execution_documents_lem all_up "run-1" (some "{}") plan (some 2) tidying_db
      documents_set

abbrev facts : ExecutionFacts
facts = record {
  cases =
      record {
        stable_key = "pos";
        verdict = fail;
        started_at = some 3;
        ended_at = some 4;
        assertions =
            record {
              stable_key = "alert_count:1";
              kind = "alert_count";
              expected = some "1";
              observed = some "0";
              verdict = fail;
              explanation = "no alert";
              observation_start = some 3;
              observation_end = some 4;
            }
            ∷ [];
        evidence = some "{}";
      }
      ∷ [];
  attempts =
      record {
        starts_at = some 3;
        case_stable_key = "pos";
        event_id = "run-1:case:pos:event:1";
        event_index = 1;
        send_state = "ATTEMPTED";
        injection_class = "indeterminate";
        status_code = 0;
        fingerprint = "";
      }
      ∷ [];
  resolutions = [];
  artifacts = [];
}

final_db : Db
unfolding planned_db decimal finalize_run validate_facts write_cases write_assertions write_attempts
    close_rows complete_row append_event event_refused last_sequence find_run verdict_valid
    cleanup_valid status_eq
final_db =
    db_or journal
      (finalize_run all_up "run-1" facts fail clean (some (attempts 0)) "" (some 5) planned_db)

finalizes :
    finalize_run all_up "run-1" facts fail clean (some (attempts 0)) "" (some 5) planned_db
    ≡ ok final_db
unfolding final_db decimal find
finalizes = refl

finalize_settles_example :
    (any (planned_case "run-1") final_db.children ≡ false)
    × (any (unjudged_assertion "run-1") final_db.children ≡ false)
    × (any (planned_attempt "run-1") final_db.children ≡ false)
    × ((j : String) → str_eq "run-1" j ≡ false → children_of j final_db ≡ children_of j planned_db)
finalize_settles_example =
    finalize_settles all_up "run-1" facts fail clean (some (attempts 0)) "" (some 5) planned_db
      finalizes

finalize_run_lem_example :
    (row : Row) × (r : Report) × (find_run "run-1" planned_db.runs ≡ some row)
    × (status_eq row.run.status cleaning_up ≡ true)
    × (◌≡◌ {A = Option Report} (some (attempts 0)) (some r))
    × (find_run "run-1" final_db.runs ≡ some (ended fail clean r "" (some 5) row))
    × ((j : String)
        → str_eq "run-1" j ≡ false
        → find_run j final_db.runs ≡ find_run j planned_db.runs)
    × (final_db.events
        ≡ planned_db.events
          ++ number_event planned_db
              (transition_event "run-1" cleaning_up completed (some 5) "Run completed")
            ∷ [])
finalize_run_lem_example =
    finalize_run_lem all_up "run-1" facts fail clean (some (attempts 0)) "" (some 5) planned_db
      (unfold planned_db decimal in (refl, tt)) finalizes

finalize_records_example :
    All (IsRecorded "run-1" final_db.children) facts.cases
    × All (IsReported "run-1" final_db.children) facts.attempts
finalize_records_example =
    finalize_records "run-1" all_up facts fail clean (some (attempts 0)) "" (some 5) planned_db
      finalizes

abbrev twice : ExecutionFacts
twice = record facts { cases = facts.cases ++ facts.cases }

finalize_refuses_repeats_example :
    (e : StoreError) × (finalize_run all_up "run-1" twice fail clean
        (some (attempts 0))
        ""
        (some 5)
        planned_db
      ≡ err e)
finalize_refuses_repeats_example =
    finalize_refuses_repeats all_up "run-1" twice fail clean (some (attempts 0)) "" (some 5)
      planned_db (λ (once, _). cc)
