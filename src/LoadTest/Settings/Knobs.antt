-- ===== src/LoadTest/Settings/Knobs.antt =====
-- What the wizard can answer (cmd/loadtest/wizard.go: runWizard, askDuration, askInt, askFloat).
use gojobs.Prelude.{
  ℕ, ◌≡◌, refl, sym, Bool, true, false, not, ◌||◌, Option, some, none, List, [], ◌∷◌, arith,
}
use gojobs.Prelude.Int.{ℤ, pos, ltb_int}
use gojobs.LoadTest.Settings.{
  Config, answer, ask, ask_duration, ask_int, ask_float, run_wizard, refused,
}

answer-accepts {ℓ} :
    {A : Type ℓ} (accepts : A → Bool) (lines : List (List ℕ)) (again : A × List (List ℕ))
    (parsed : Option A)
    → accepts again.0 ≡ true
    → accepts (answer accepts lines again parsed).0 ≡ true
unfolding answer
answer-accepts accepts lines again none h = h
answer-accepts accepts lines again (some a) h = grind (arith, h)

-- An answer is acceptable if the default is.
ask-accepts {ℓ} :
    {A : Type ℓ} (parse : List ℕ → Option A) (accepts : A → Bool) (def : A) (lines : List (List ℕ))
    → accepts def ≡ true
    → accepts (ask parse accepts def lines).0 ≡ true
unfolding ask
ask-accepts parse accepts def [] h = h
ask-accepts parse accepts def ([] ∷ lines) h = h
ask-accepts parse accepts def ((c ∷ s) ∷ lines) h =
    answer-accepts accepts lines (ask parse accepts def lines) (parse (c ∷ s))
      (ask-accepts parse accepts def lines h)

not-true : {b : Bool} → b ≡ false → not b ≡ true
not-true h = rw h refl

not-false : {b : Bool} → not b ≡ true → b ≡ false
not-false {b = true} h = sym h
not-false {b = false} h = refl

or-false : {a b : Bool} → a ≡ false → b ≡ false → (a || b) ≡ false
or-false h k = rw (h, k) refl

or-left : (a b : Bool) → (a || b) ≡ false → a ≡ false
or-left true b h = h
or-left false b h = refl

or-right : (a b : Bool) → (a || b) ≡ false → b ≡ false
or-right true b h = cc
or-right false b h = h

ask_duration-positive :
    (parse_duration : List ℕ → Option ℤ) (def : ℤ) (lines : List (List ℕ))
    → ltb_int (pos 0) def ≡ true
    → ltb_int (pos 0) (ask_duration parse_duration def lines).0 ≡ true
unfolding ask_duration
ask_duration-positive parse_duration def lines h =
    ask-accepts parse_duration (λ d. ltb_int (pos 0) d) def lines h

ask_int-least :
    (atoi : List ℕ → Option ℤ) (def min : ℤ) (lines : List (List ℕ))
    → ltb_int def min ≡ false
    → ltb_int (ask_int atoi def min lines).0 min ≡ false
unfolding ask_int
ask_int-least atoi def min lines h =
    not-false (ask-accepts atoi (λ n. not (ltb_int n min)) def lines (not-true h))

module _ {F : Type 0} (less : F → F → Bool) (zero_float one_float : F) where
  ask_float-within :
      (parse_float : List ℕ → Option F) (def min max : F) (lines : List (List ℕ))
      → (less def min || less max def) ≡ false
      → (let f = (ask_float less zero_float one_float parse_float def min max lines).0 in
          less f min || less max f)
        ≡ false
  unfolding ask_float
  ask_float-within parse_float def min max lines h =
      not-false
        (ask-accepts parse_float (λ f. not (less f min || less max f)) def lines (not-true h))

  module _ (parse_duration atoi : List ℕ → Option ℤ) (parse_float : List ℕ → Option F) where
    pub run_wizard-refused :
        (lines : List (List ℕ)) (cfg : Config F)
        → refused less zero_float one_float cfg ≡ false
        → refused less zero_float one_float
            (run_wizard less zero_float one_float parse_duration atoi parse_float lines cfg)
          ≡ false
    unfolding run_wizard refused ask_duration ask_int ask_float
    run_wizard-refused lines cfg fine =
        let counts = or-left _ _ (or-left _ _ fine) in
        or-false
          (or-false
            (or-false (ask_int-least atoi cfg.producers (pos 1) _ (or-left _ _ counts))
              (ask_int-least atoi cfg.consumers (pos 1) _ (or-right _ _ counts)))
            (ask_float-within parse_float cfg.fail_rate zero_float one_float _
              (or-right _ _ (or-left _ _ fine))))
          (ask_float-within parse_float cfg.crash_share zero_float one_float _ (or-right _ _ fine))

    -- On any input, the wizard keeps what the flags were checked for: if the knobs it starts from are
    -- not refused, the duration is positive and the number of retries is not negative, all this
    -- holds of the knobs it returns.
    pub run_wizard-accepts :
        (lines : List (List ℕ)) (cfg : Config F)
        → refused less zero_float one_float cfg ≡ false
        → ltb_int (pos 0) cfg.dur ≡ true
        → ltb_int cfg.max_retries (pos 0) ≡ false
        → let after =
            run_wizard less zero_float one_float parse_duration atoi parse_float lines cfg in
          (refused less zero_float one_float after ≡ false)
          × (ltb_int (pos 0) after.dur ≡ true)
          × (ltb_int after.max_retries (pos 0) ≡ false)
    unfolding run_wizard ask_duration ask_int ask_float
    run_wizard-accepts lines cfg fine positive retries = (
      run_wizard-refused lines cfg fine,
      ask_duration-positive parse_duration cfg.dur lines positive,
      ask_int-least atoi cfg.max_retries (pos 0) _ retries,
    )
