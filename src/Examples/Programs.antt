-- ===== src/Examples/Programs.antt =====
-- cmd/loadtest: the wizard on some typed lines, and the program as a whole.
use gojobs.Prelude.{ℕ, ◌≡◌, refl, true, false, Option, some, none, List, [], ◌∷◌, ltb}
use gojobs.Prelude.Int.{ℤ, pos, ltb_int, minus}
use gojobs.LoadTest.Workload.{RunStats, no_stats}
use gojobs.LoadTest.Settings.{Config, run_wizard, refused, default_config, exit_code}
use gojobs.LoadTest.Settings.Knobs.{run_wizard-accepts}
use gojobs.LoadTest.Main.{
  asked, opened, config_shown, loaded, results_shown, recorded, closed, removed, Outside, real_main,
}

-- Tenths stand for the float64s.
abbrev pub tenths : Config ℕ
unfolding default_config
tenths = default_config 2 5 (111 ∷ [])

-- The duration is refused, then taken by default; the producers are three.
abbrev typed : List (List ℕ)
typed = (48 ∷ []) ∷ [] ∷ (51 ∷ []) ∷ []

abbrev digit : List ℕ → Option ℤ
digit [] = none
digit (c ∷ s) = some (minus c 48)

abbrev tenth : List ℕ → Option ℕ
tenth s = none

abbrev after_wizard : Config ℕ
after_wizard = run_wizard ltb 0 10 digit digit tenth typed tenths

run_wizard-accepts_example :
    (refused ltb 0 10 after_wizard ≡ false)
    × (ltb_int (pos 0) after_wizard.dur ≡ true)
    × (ltb_int after_wizard.max_retries (pos 0) ≡ false)
unfolding default_config refused
run_wizard-accepts_example =
    run_wizard-accepts ltb 0 10 digit digit tenth typed tenths refl refl refl

abbrev passed : RunStats
passed = record no_stats { pass = true }

-- No flag is given, a terminal asks, and the log opens.
abbrev outside : Outside ℕ
outside = record {
  flags = 0;
  stdin = some true;
  lines = typed;
  temporary = 116 ∷ [];
  opens = λ path. true;
  load = λ cfg. passed;
  records = λ out. true;
}

abbrev used : Config ℕ
used = record after_wizard { wal_path = 116 ∷ [] }

-- The whole of a run that passes, with the temporary log removed behind it.
whole_run : real_main ltb 0 10 digit digit tenth outside tenths ≡ (
  asked
      ∷ opened (116 ∷ [])
      ∷ config_shown used
      ∷ loaded used
      ∷ results_shown passed
      ∷ recorded used.out
      ∷ closed
      ∷ removed (116 ∷ [])
      ∷ [],
  0,
)
unfolding default_config refused run_wizard real_main exit_code
whole_run = refl
