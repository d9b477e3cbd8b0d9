-- ===== src/LoadTest/Main.antt =====
-- cmd/loadtest/main.go: what the program does, in order, and its exit code. What NewQueue and the
-- results file answer, and what a run with some knobs comes to, are arguments.
pub mod Orderly
use gojobs.Prelude.{
  ℕ, Bool, true, false, Option, some, none, List, [], ◌∷◌, ◌++◌, ◌==◌, if◌then◌else◌,
}
use gojobs.Prelude.Int.{ℤ}
use gojobs.LoadTest.Workload.{RunStats}
use gojobs.LoadTest.Settings.{Config, choose_wal, refused, run_wizard, exit_code}

-- flag.NFlag, and whether the standard input is a terminal; none if it has no status.
unfoldable pub should_run_wizard : ℕ → Option Bool → Bool
should_run_wizard flags none = false
should_run_wizard flags (some terminal) = if flags == 0 then terminal else false

pub data Action (F : Type 0) : Type 0 where
  asked : Action F
  opened : List ℕ → Action F
  config_shown : Config F → Action F
  loaded : Config F → Action F
  results_shown : RunStats → Action F
  recorded : List ℕ → Action F
  record_lost : List ℕ → Action F
  closed : Action F
  removed : List ℕ → Action F

-- What the program finds outside.
pub record Outside (F : Type 0) : Type 0 where
  pub flags : ℕ
  pub stdin : Option Bool
  pub lines : List (List ℕ)
  pub temporary : List ℕ
  pub opens : List ℕ → Bool
  pub load : Config F → RunStats
  pub records : List ℕ → Bool

module _ {F : Type 0} where
  -- The deferred removal of a temporary log.
  abbrev pub cleanup : Bool → List ℕ → List (Action F)
  cleanup true path = removed path ∷ []
  cleanup false path = []

  abbrev pub recording : Bool → List ℕ → Action F
  recording true out = recorded out
  recording false out = record_lost out

  -- realMain once the knobs are settled. log.Fatalf exits at once with 1, and no deferred call is made.
  unfoldable pub run_config : Outside F → Bool → Config F → List (Action F) × ℕ
  unfolding exit_code
  run_config o temporary_wal cfg =
      if o.opens cfg.wal_path
      then (
        opened cfg.wal_path
            ∷ config_shown cfg
            ∷ loaded cfg
            ∷ results_shown (o.load cfg)
            ∷ recording (o.records cfg.out) cfg.out
            ∷ closed
            ∷ cleanup temporary_wal cfg.wal_path,
        exit_code (o.load cfg),
      )
      else ([], 1)

  abbrev pub noted : Bool → List (Action F) × ℕ → List (Action F) × ℕ
  noted true (actions, status) = (asked ∷ actions, status)
  noted false r = r

  module _ (less : F → F → Bool) (zero_float one_float : F)
      (parse_duration atoi : List ℕ → Option ℤ) (parse_float : List ℕ → Option F) where
    -- The wizard, if there is one.
    abbrev pub settle_knobs : Bool → List (List ℕ) → Config F → Config F
    unfolding run_wizard
    settle_knobs true lines cfg =
        run_wizard less zero_float one_float parse_duration atoi parse_float lines cfg
    settle_knobs false lines cfg = cfg

    unfoldable pub real_main : Outside F → Config F → List (Action F) × ℕ
    unfolding refused choose_wal should_run_wizard settle_knobs run_config
    real_main o cfg =
        if refused less zero_float one_float cfg
        then ([], 1)
        else (let (cfg', temporary_wal) = choose_wal o.temporary cfg in
            let asks = should_run_wizard o.flags o.stdin in
            noted asks (run_config o temporary_wal (settle_knobs asks o.lines cfg')))
