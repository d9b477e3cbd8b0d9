-- ===== src/LoadTest/Results.antt =====
-- cmd/loadtest/results.go and output.go: the record of a run, and what the report prints of it. A
-- float64 that is only copied has a type of its own; text is a list of code points. git, the clock
-- and the way a time.Duration is printed are arguments.
pub mod Report
use gojobs.Prelude.{
  ℕ, zero, suc, ◌+◌, ◌-◌, ◌*◌, ◌/◌, Bool, true, false, Option, some, none, List, [], ◌∷◌, ◌++◌,
  length, ◌==◌, if◌then◌else◌,
}
use gojobs.Prelude.Int.{ℤ, minus}
use gojobs.Clock.{second}
use gojobs.LoadTest.Workload.{RunStats}
use gojobs.LoadTest.Metrics.{Ratio, OpMetrics}
use gojobs.LoadTest.Settings.{Config}

-- metrics.go: the summaries of a run and its window, which `RunStats` does not hold here.
pub record RunMetrics : Type 0 where
  pub window : ℕ
  pub enqueue : OpMetrics
  pub dequeue : OpMetrics
  pub ack : OpMetrics

pub record GitRecord : Type 0 where
  pub sha : List ℕ
  pub branch : List ℕ
  pub dirty : Bool

pub record CfgRecord (F : Type 0) : Type 0 where
  pub dur : List ℕ
  pub producers : ℤ
  pub consumers : ℤ
  pub fail_rate : F
  pub crash_share : F
  pub max_retries : ℤ
  pub visibility : List ℕ
  pub sweep : List ℕ

pub record CntRecord : Type 0 where
  pub produced : ℕ
  pub delivered : ℕ
  pub redeliveries : ℤ
  pub acked : ℕ
  pub retried : ℕ
  pub crashed : ℕ
  pub distinct_effects : ℕ
  pub deduped_reapplies : ℤ
  pub dlq_length : ℕ

pub record OpReport : Type 0 where
  pub samples : ℕ
  pub ops_per_second : Ratio
  pub p50_us : ℕ
  pub p95_us : ℕ
  pub p99_us : ℕ

pub record OpsRecord : Type 0 where
  pub enqueue : OpReport
  pub dequeue : OpReport
  pub ack : OpReport

pub record ResultRecord (F : Type 0) : Type 0 where
  pub timestamp : List ℕ
  pub label : List ℕ
  pub git : GitRecord
  pub config : CfgRecord F
  pub counters : CntRecord
  pub window_sec : Ratio
  pub ops : OpsRecord
  pub pass : Bool
  pub shortfall : ℤ

-- Whole microseconds.
unfoldable pub op_report : OpMetrics → OpReport
op_report m = record {
  samples = m.samples;
  ops_per_second = m.throughput;
  p50_us = m.p50 / 1000;
  p95_us = m.p95 / 1000;
  p99_us = m.p99 / 1000;
}

-- The three questions to git. `run_git` is exec.Command with an error for a command that fails;
-- what it prints is trimmed.
pub data GitCommand : Type 0 where
  short_head branch_name porcelain_status : GitCommand

unfoldable pub run_git : (GitCommand → Option (List ℕ)) → GitCommand → List ℕ
run_git git command = or_empty (git command)
  where
    or_empty : Option (List ℕ) → List ℕ
    or_empty none = []
    or_empty (some out) = out

unfoldable pub git_info : (GitCommand → Option (List ℕ)) → GitRecord
unfolding run_git
git_info git = record {
  sha = run_git git short_head;
  branch = run_git git branch_name;
  dirty = not_empty (run_git git porcelain_status);
}
  where
    not_empty : List ℕ → Bool
    not_empty [] = false
    not_empty (c ∷ out) = true

module _ {F : Type 0} (show_duration : ℤ → List ℕ) (git : GitCommand → Option (List ℕ)) where
  unfoldable pub build_record : List ℕ → Config F → RunStats → RunMetrics → ResultRecord F
  unfolding git_info op_report
  build_record timestamp cfg stats metrics = record {
    timestamp = timestamp;
    label = cfg.label;
    git = git_info git;
    config = record {
      dur = show_duration cfg.dur;
      producers = cfg.producers;
      consumers = cfg.consumers;
      fail_rate = cfg.fail_rate;
      crash_share = cfg.crash_share;
      max_retries = cfg.max_retries;
      visibility = show_duration cfg.visibility;
      sweep = show_duration cfg.sweep;
    };
    counters = record {
      produced = stats.produced;
      delivered = stats.delivered;
      redeliveries = minus stats.delivered stats.produced;
      acked = stats.acked;
      retried = stats.retried;
      crashed = stats.crashed;
      distinct_effects = stats.distinct_effects;
      deduped_reapplies = minus stats.effect_deliveries stats.distinct_effects;
      dlq_length = stats.dlq_length;
    };
    window_sec = record { over = metrics.window; under = second };
    ops = record {
      enqueue = op_report metrics.enqueue;
      dequeue = op_report metrics.dequeue;
      ack = op_report metrics.ack;
    };
    pass = stats.pass;
    shortfall = stats.shortfall;
  }

abbrev repeated : ℕ → List ℕ
repeated zero = []
repeated (suc n) = 9552 ∷ repeated n

-- The line of a header: two bars, the title, and bars up to the width of 52; 9552 is the bar.
unfoldable pub section : List ℕ → List ℕ
section title =
    let prefix = 9552 ∷ 9552 ∷ 32 ∷ title ++ 32 ∷ [] in prefix ++ repeated (52 - length prefix)

-- "ok" or "BAD"
unfoldable pub ok_mark : Bool → List ℕ
ok_mark true = 111 ∷ 107 ∷ []
ok_mark false = 66 ∷ 65 ∷ 68 ∷ []

-- The marks of the three rows on conservation.
unfoldable pub marks : RunStats → List (List ℕ)
unfolding ok_mark
marks stats =
    ok_mark (stats.distinct_effects == stats.produced)
    ∷ ok_mark (stats.acked == stats.produced)
    ∷ ok_mark (stats.dlq_length == 0)
    ∷ []
