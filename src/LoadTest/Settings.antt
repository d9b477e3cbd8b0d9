-- ===== src/LoadTest/Settings.antt =====
-- cmd/loadtest/main.go and wizard.go: the knobs of a run, what is refused, and the questions that ask
-- for them. A float64 is a parameter with the comparison of the language, for which NaN is less than
-- nothing and nothing is less than NaN. strconv and time.ParseDuration are parameters too: they give
-- a value or an error. A line is what strings.TrimSpace leaves of it.
pub mod Knobs
use gojobs.Prelude.{
  ℕ, ◌*◌, ◌/◌, Bool, true, false, not, ◌||◌, Option, some, none, List, [], ◌∷◌, if◌then◌else◌,
}
use gojobs.Prelude.Int.{ℤ, pos, ltb_int}
use gojobs.Clock.{second}
use gojobs.LoadTest.Workload.{RunStats}

pub record Config (F : Type 0) : Type 0 where
  pub dur : ℤ
  pub producers : ℤ
  pub consumers : ℤ
  pub fail_rate : F
  pub crash_share : F
  pub max_retries : ℤ
  pub visibility : ℤ
  pub sweep : ℤ
  pub drain_timeout : ℤ
  pub wal_path : List ℕ
  pub label : List ℕ
  pub out : List ℕ

-- The defaults of the flags; bench_results is filepath.Join("bench", "results.jsonl").
unfoldable pub default_config : {F : Type 0} → F → F → List ℕ → Config F
default_config fail_rate crash_share bench_results = record {
  dur = pos (10 * second);
  producers = pos 4;
  consumers = pos 4;
  fail_rate = fail_rate;
  crash_share = crash_share;
  max_retries = pos 3;
  visibility = pos (5 * second);
  sweep = pos (second / 2);
  drain_timeout = pos (60 * second);
  wal_path = [];
  label = [];
  out = bench_results;
}

abbrev pub choose_path : {F : Type 0} → List ℕ → Config F → List ℕ → Config F × Bool
choose_path temporary cfg [] = (record cfg { wal_path = temporary }, true)
choose_path temporary cfg (c ∷ path) = (cfg, false)

-- A run without a path takes a temporary file, which the cleanup removes.
unfoldable pub choose_wal : {F : Type 0} → List ℕ → Config F → Config F × Bool
choose_wal temporary cfg = choose_path temporary cfg cfg.wal_path

-- The exit code of realMain.
unfoldable pub exit_code : RunStats → ℕ
exit_code stats = if not stats.pass then 1 else 0

-- A value that was parsed ends a question if it is acceptable; else the question is put again.
unfoldable pub answer {ℓ} :
    {A : Type ℓ} → (A → Bool) → List (List ℕ) → A × List (List ℕ) → Option A → A × List (List ℕ)
answer accepts lines again none = again
answer accepts lines again (some a) = if accepts a then (a, lines) else again

-- A question is put until a line is blank or acceptable; the end of the input is a blank line.
unfoldable pub ask {ℓ} :
    {A : Type ℓ} → (List ℕ → Option A) → (A → Bool) → A → List (List ℕ) → A × List (List ℕ)
unfolding answer
ask parse accepts def [] = (def, [])
ask parse accepts def ([] ∷ lines) = (def, lines)
ask parse accepts def ((c ∷ s) ∷ lines) =
    answer accepts lines (ask parse accepts def lines) (parse (c ∷ s))

unfoldable pub ask_duration : (List ℕ → Option ℤ) → ℤ → List (List ℕ) → ℤ × List (List ℕ)
unfolding ask
ask_duration parse_duration = ask parse_duration (λ d. ltb_int (pos 0) d)

unfoldable pub ask_int : (List ℕ → Option ℤ) → ℤ → ℤ → List (List ℕ) → ℤ × List (List ℕ)
unfolding ask
ask_int atoi def min = ask atoi (λ n. not (ltb_int n min)) def

unfoldable pub ask_string : List ℕ → List (List ℕ) → List ℕ × List (List ℕ)
ask_string def [] = (def, [])
ask_string def ([] ∷ lines) = (def, lines)
ask_string def ((c ∷ s) ∷ lines) = (c ∷ s, lines)

module _ {F : Type 0} (less : F → F → Bool) (zero_float one_float : F) where
  unfoldable pub ask_float : (List ℕ → Option F) → F → F → F → List (List ℕ) → F × List (List ℕ)
  unfolding ask
  ask_float parse_float def min max = ask parse_float (λ f. not (less f min || less max f)) def

  -- What parseFlags exits on.
  unfoldable pub refused : Config F → Bool
  refused cfg =
      (ltb_int cfg.producers (pos 1) || ltb_int cfg.consumers (pos 1))
      || (less cfg.fail_rate zero_float || less one_float cfg.fail_rate)
      || (less cfg.crash_share zero_float || less one_float cfg.crash_share)

  module _ (parse_duration atoi : List ℕ → Option ℤ) (parse_float : List ℕ → Option F) where
    unfoldable pub run_wizard : List (List ℕ) → Config F → Config F
    unfolding ask_duration ask_int ask_float ask_string
    run_wizard lines0 cfg =
        let (dur, lines1) = ask_duration parse_duration cfg.dur lines0 in
        let (producers, lines2) = ask_int atoi cfg.producers (pos 1) lines1 in
        let (consumers, lines3) = ask_int atoi cfg.consumers (pos 1) lines2 in
        let (fail_rate, lines4) = ask_float parse_float cfg.fail_rate zero_float one_float lines3 in
        let (crash_share, lines5) =
          ask_float parse_float cfg.crash_share zero_float one_float lines4 in
        let (max_retries, lines6) = ask_int atoi cfg.max_retries (pos 0) lines5 in
        let (label, lines7) = ask_string cfg.label lines6 in
        record cfg {
          dur = dur;
          producers = producers;
          consumers = consumers;
          fail_rate = fail_rate;
          crash_share = crash_share;
          max_retries = max_retries;
          label = label;
        }
