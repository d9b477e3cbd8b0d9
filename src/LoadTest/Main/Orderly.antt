-- ===== src/LoadTest/Main/Orderly.antt =====
-- What a run of the program leaves behind (cmd/loadtest/main.go: realMain, parseFlags).
use gojobs.Prelude.{
  ℕ, ◌+◌, ◌≡◌, ◌≢◌, refl, not, Bool, true, false, Option, List, [], ◌∷◌, arith, Bool-cases, inl,
  inr,
}
use gojobs.Prelude.Int.{ℤ}
use gojobs.LoadTest.Settings.{Config, choose_path, refused, run_wizard, exit_code}
use gojobs.LoadTest.Settings.Knobs.{run_wizard-refused}
use gojobs.LoadTest.Main.{
  Action, asked, opened, config_shown, loaded, results_shown, recorded, record_lost, closed,
  removed, Outside, cleanup, recording, run_config, noted, settle_knobs, should_run_wizard,
}
use gojobs.LoadTest.Workload.{RunStats}

exit_code-pass : (stats : RunStats) → exit_code stats ≡ 0 → stats.pass ≡ true
unfolding exit_code
exit_code-pass stats x = ground (arith, x)

module _ {F : Type 0} where
  -- How often the log was opened and closed.
  abbrev pub openings : List (Action F) → ℕ
  openings [] = 0
  openings (opened path ∷ rest) = openings rest + 1
  openings (_ ∷ rest) = openings rest

  abbrev pub closings : List (Action F) → ℕ
  closings [] = 0
  closings (closed ∷ rest) = closings rest + 1
  closings (_ ∷ rest) = closings rest

  -- Every file that is removed is this one.
  abbrev pub RemovesOnly : List ℕ → List (Action F) → Type 0
  RemovesOnly path [] = Unit
  RemovesOnly path (removed p ∷ rest) = (p ≡ path) × RemovesOnly path rest
  RemovesOnly path (_ ∷ rest) = RemovesOnly path rest

  abbrev pub RemovesNone : List (Action F) → Type 0
  RemovesNone [] = Unit
  RemovesNone (removed p ∷ rest) = ⊥
  RemovesNone (_ ∷ rest) = RemovesNone rest

  -- Every run of the load has knobs that are accepted.
  abbrev pub LoadsWith : (Config F → Bool) → List (Action F) → Type 0
  LoadsWith accepts [] = Unit
  LoadsWith accepts (loaded cfg ∷ rest) = (accepts cfg ≡ true) × LoadsWith accepts rest
  LoadsWith accepts (_ ∷ rest) = LoadsWith accepts rest

  module _ (o : Outside F) (accepts : Config F → Bool) (cfg : Config F)
      (fine : accepts cfg ≡ true) where
    -- The result of the part that starts with NewQueue, with this file to remove or with none.
    record Finished (temporary_wal : Bool) (r : List (Action F) × ℕ) : Type 0 where
      accepted : LoadsWith accepts r.0
      tidy : closings r.0 ≡ openings r.0
      removes : RemovesOnly cfg.wal_path r.0
      pinned : temporary_wal ≡ false → RemovesNone r.0
      passed : r.1 ≡ 0 → (openings r.0 ≡ 1) × ((o.load cfg).pass ≡ true)

    -- A run that NewQueue let through.
    through :
        (records temporary_wal : Bool)
        → Finished temporary_wal (
          opened cfg.wal_path
              ∷ config_shown cfg
              ∷ loaded cfg
              ∷ results_shown (o.load cfg)
              ∷ recording records cfg.out
              ∷ closed
              ∷ cleanup temporary_wal cfg.wal_path,
          exit_code (o.load cfg),
        )
    through true true = record {
      accepted = (fine, tt);
      tidy = refl;
      removes = (refl, tt);
      pinned = λ x. cc;
      passed = λ x. (refl, exit_code-pass (o.load cfg) x);
    }
    through true false = record {
      accepted = (fine, tt);
      tidy = refl;
      removes = tt;
      pinned = λ x. tt;
      passed = λ x. (refl, exit_code-pass (o.load cfg) x);
    }
    through false true = record {
      accepted = (fine, tt);
      tidy = refl;
      removes = (refl, tt);
      pinned = λ x. cc;
      passed = λ x. (refl, exit_code-pass (o.load cfg) x);
    }
    through false false = record {
      accepted = (fine, tt);
      tidy = refl;
      removes = tt;
      pinned = λ x. tt;
      passed = λ x. (refl, exit_code-pass (o.load cfg) x);
    }

    run_config-Finished :
        (temporary_wal : Bool) → Finished temporary_wal (run_config o temporary_wal cfg)
    unfolding run_config
    run_config-Finished temporary_wal = elim (Bool-cases (o.opens cfg.wal_path)) [
      | inl e ↦ rw e (through (o.records cfg.out) temporary_wal)
      | inr e ↦ rw e (record {
        accepted = tt;
        tidy = refl;
        removes = tt;
        pinned = λ x. tt;
        passed = λ x. absurd (omega arith);
      })
    ]

  -- What holds of the actions and the exit code of a program with these flags.
  pub record IsOrderly (accepts : Config F → Bool) (o : Outside F) (cfg : Config F)
      (r : List (Action F) × ℕ) : Type 0 where
    pub accepted : LoadsWith accepts r.0
    pub tidy : closings r.0 ≡ openings r.0
    pub removes : RemovesOnly o.temporary r.0
    pub pinned : cfg.wal_path ≢ [] → RemovesNone r.0
    pub passed :
        r.1 ≡ 0
        → (openings r.0 ≡ 1)
          × ((used : Config F) × ((o.load used).pass ≡ true) × (accepts used ≡ true))

  RemovesNone-Only :
      (path : List ℕ) (rest : List (Action F)) → RemovesNone rest → RemovesOnly path rest
  RemovesNone-Only path [] h = tt
  RemovesNone-Only path (asked ∷ rest) h = RemovesNone-Only path rest h
  RemovesNone-Only path (opened p ∷ rest) h = RemovesNone-Only path rest h
  RemovesNone-Only path (config_shown c ∷ rest) h = RemovesNone-Only path rest h
  RemovesNone-Only path (loaded c ∷ rest) h = RemovesNone-Only path rest h
  RemovesNone-Only path (results_shown s ∷ rest) h = RemovesNone-Only path rest h
  RemovesNone-Only path (recorded p ∷ rest) h = RemovesNone-Only path rest h
  RemovesNone-Only path (record_lost p ∷ rest) h = RemovesNone-Only path rest h
  RemovesNone-Only path (closed ∷ rest) h = RemovesNone-Only path rest h
  RemovesNone-Only path (removed p ∷ rest) h = absurd h

  module _ (o : Outside F) (accepts : Config F → Bool) (cfg used : Config F)
      (fine : accepts used ≡ true) where
    -- With the file of the flags, or with the temporary one in its place.
    orderly :
        (temporary_wal : Bool)
        → (temporary_wal ≡ true → (used.wal_path ≡ o.temporary) × (cfg.wal_path ≡ []))
        → (r : List (Action F) × ℕ) → Finished o accepts used fine temporary_wal r
        → IsOrderly accepts o cfg r
    orderly true chosen r h = record {
      accepted = h.accepted;
      tidy = h.tidy;
      removes = rw (chosen refl).0 at h.removes;
      pinned = λ n. absurd (n (chosen refl).1);
      passed = λ x. ((h.passed x).0, (used, (h.passed x).1, fine));
    }
    orderly false chosen r h = record {
      accepted = h.accepted;
      tidy = h.tidy;
      removes = RemovesNone-Only o.temporary r.0 (h.pinned refl);
      pinned = λ n. h.pinned refl;
      passed = λ x. ((h.passed x).0, (used, (h.passed x).1, fine));
    }

    settled :
        (asks temporary_wal : Bool)
        → (temporary_wal ≡ true → (used.wal_path ≡ o.temporary) × (cfg.wal_path ≡ []))
        → IsOrderly accepts o cfg (noted asks (run_config o temporary_wal used))
    settled true temporary_wal chosen =
        let r = run_config o temporary_wal used in
        let h =
          orderly temporary_wal chosen r (run_config-Finished o accepts used fine temporary_wal) in
        record {
          accepted = h.accepted;
          tidy = h.tidy;
          removes = h.removes;
          pinned = h.pinned;
          passed = h.passed;
        }
    settled false temporary_wal chosen =
        orderly temporary_wal chosen _ (run_config-Finished o accepts used fine temporary_wal)

  module _ (less : F → F → Bool) (zero_float one_float : F)
      (parse_duration atoi : List ℕ → Option ℤ) (parse_float : List ℕ → Option F) where
    abbrev accepts : Config F → Bool
    accepts c = not (refused less zero_float one_float c)

    settle_knobs-accepted :
        (asks : Bool) (lines : List (List ℕ)) (cfg : Config F)
        → refused less zero_float one_float cfg ≡ false
        → accepts
            (settle_knobs less zero_float one_float parse_duration atoi parse_float asks lines cfg)
          ≡ true
    unfolding settle_knobs
    settle_knobs-accepted true lines cfg fine =
        rw
          (run_wizard-refused less zero_float one_float parse_duration atoi parse_float lines cfg
            fine)
          refl
    settle_knobs-accepted false lines cfg fine = rw fine refl

    settle_knobs-wal_path :
        (asks : Bool) (lines : List (List ℕ)) (cfg : Config F)
        → (settle_knobs less zero_float one_float parse_duration atoi parse_float asks lines
            cfg).wal_path
          ≡ cfg.wal_path
    unfolding settle_knobs run_wizard
    settle_knobs-wal_path true lines cfg = refl
    settle_knobs-wal_path false lines cfg = refl

    chosen :
        (o : Outside F) (cfg : Config F) (path : List ℕ)
        → cfg.wal_path ≡ path
        → refused less zero_float one_float cfg ≡ false
        → let chosen = choose_path o.temporary cfg path in
          let asks = should_run_wizard o.flags o.stdin in
          IsOrderly accepts o cfg (
            noted asks (
              run_config o chosen.1 (
                settle_knobs less zero_float one_float parse_duration atoi parse_float asks o.lines
                  chosen.0)))
    unfolding refused
    chosen o cfg [] e fine =
        let asks = should_run_wizard o.flags o.stdin in
        let cfg' = record cfg { wal_path = o.temporary } in
        settled o accepts cfg _ (settle_knobs-accepted asks o.lines cfg' fine) asks true
          (λ x. (settle_knobs-wal_path asks o.lines cfg', e))
    chosen o cfg (c ∷ path) e fine =
        let asks = should_run_wizard o.flags o.stdin in
        settled o accepts cfg _ (settle_knobs-accepted asks o.lines cfg fine) asks false (λ x. cc)
