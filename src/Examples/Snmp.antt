-- ===== src/Examples/Snmp.antt =====
-- internal/snmpload/plan.go: a load of ten packets in ten seconds.
use oscar_corrtest.Base.{
  ℕ, ◌≤◌, ◌≡◌, refl, ◌↔◌, List, [], ◌∷◌, map, length, tally, All, true, Result, ok, err,
}
use oscar_corrtest.Snmp.{
  Options, Plan, Packet, validate, compile, offer, fill, begin, find_clear, find_repeat, drain,
  empty_load, finish,
}
use oscar_corrtest.Snmp.Fixture.{Error, fixture, by_family, run_id_ok}
use oscar_corrtest.Snmp.Ledger.{problem_of, clear_of, repeat_of, once_below, compile_balanced}
use oscar_corrtest.Snmp.Timing.{Timely, compile-Timely}
use oscar_corrtest.Snmp.Total.{compile_iff}

abbrev slow : Options
slow = record {
  port = 162;
  profile = "mixed";
  rate = 1;
  duration = 10;
  clear_delay = 2;
  drain_timeout = 30;
}

abbrev plan_or : Plan → Result Error Plan → Plan
plan_or d (ok p) = p
plan_or d (err e) = d

slow_plan : Plan
unfolding compile offer fill begin fixture by_family run_id_ok find_clear find_repeat drain validate
slow_plan = plan_or (finish "" slow empty_load) (compile "crt-1" slow)

slow_compiles : compile "crt-1" slow ≡ ok slow_plan
unfolding slow_plan
slow_compiles = refl

slow_episodes :
    map (λ (p : Packet). p.episode) slow_plan.packets
    ≡ 0 ∷ 1 ∷ 2 ∷ 3 ∷ 3 ∷ 0 ∷ 4 ∷ 1 ∷ 2 ∷ 3 ∷ 4 ∷ []
unfolding slow_plan
slow_episodes = refl

compile_balanced_example :
    (tally (problem_of 3) slow_plan.packets ≡ once_below 3 (length slow_plan.episodes))
    × (tally (clear_of 3) slow_plan.packets ≡ once_below 3 (length slow_plan.episodes))
compile_balanced_example = compile_balanced "crt-1" slow slow_plan slow_compiles 3

compile-Timely_example :
    (starts : List ℕ) × (length starts ≡ length slow_plan.episodes)
    × All (Timely slow starts) slow_plan.packets
    × ((n : ℕ) → tally (repeat_of n) slow_plan.packets ≤ 1)
compile-Timely_example = compile-Timely "crt-1" slow slow_plan slow_compiles

compile_iff_example :
    ((plan : Plan) × (compile "crt-1" slow ≡ ok plan))
    ↔ ((validate slow ≡ ok tt) × (run_id_ok "crt-1" ≡ true))
compile_iff_example = compile_iff "crt-1" slow
