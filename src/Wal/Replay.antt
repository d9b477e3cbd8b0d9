-- ===== src/Wal/Replay.antt =====
-- WAL.Replay of internal/queue/wal.go, over the bytes of the file.
use gojobs.Prelude.{
  ℕ, zero, suc, ◌+◌, ◌^◌, ◌<◌, ◌≤◌, ◌≡◌, ap, fun_ext, Bool, true, false, List, [], ◌∷◌, ◌++◌,
  append_assoc, length, length-append, length-drop, arith, if◌then◌else◌,
}
use gojobs.Prelude.Run.{
  Run, Error, ok, err, panic, out_of_fuel, eof, unexpected_eof, corrupt_record, ◌>>=◌,
}
use gojobs.Wal.Frame.{frame, decode_frame, read_full, decode_frame-frame, length-frame}

-- The three ways in which the log ends.
unfoldable pub ends_log : Error → Bool
ends_log eof = true
ends_log unexpected_eof = true
ends_log corrupt_record = true
ends_log _ = false

module _ {ℓ} {S : Type ℓ} (apply : S → List ℕ → Run S) where
  -- One round of the loop: the record is applied, and `rest` goes on with the bytes behind it.
  abbrev round : (List ℕ → S → Run S) → S → Run (List ℕ × List ℕ) → Run S
  round rest s (ok (rec, r)) = apply s rec >>= rest r
  round rest s (err e) = if ends_log e then ok s else err e
  round rest s panic = panic
  round rest s out_of_fuel = out_of_fuel

  -- A round reads eight bytes at least, so the length of the file bounds the rounds.
  unfoldable pub replay_loop : ℕ → List ℕ → S → Run S
  unfolding ends_log
  replay_loop zero r s = out_of_fuel
  replay_loop (suc fuel) r s = round (replay_loop fuel) s (decode_frame r)

  unfoldable pub replay : List ℕ → S → Run S
  unfolding replay_loop
  replay bytes s = replay_loop (length bytes + 1) bytes s

  -- The records in order, with no file between.
  abbrev pub apply_all : List (List ℕ) → S → Run S
  apply_all [] s = ok s
  apply_all (rec ∷ recs) s = apply s rec >>= apply_all recs

abbrev pub frames : List (List ℕ) → List ℕ
frames [] = []
frames (rec ∷ recs) = frame rec ++ frames recs

-- A record length fits the four bytes of the header.
abbrev pub AllFit : List (List ℕ) → Type 0
AllFit [] = Unit
AllFit (rec ∷ recs) = (length rec < 2 ^ 32) × AllFit recs

-- At these bytes the replay takes the log to have ended.
pub record EndsLog (torn : List ℕ) : Type 0 where
  pub error : Error
  pub stops : decode_frame torn ≡ err error
  pub clean : ends_log error ≡ true

module _ {ℓ} {S : Type ℓ} (apply : S → List ℕ → Run S) where
  replay_loop-frames :
      (recs : List (List ℕ)) (torn : List ℕ) (fuel : ℕ) (s : S)
      → AllFit recs
      → EndsLog torn
      → length recs < fuel
      → replay_loop apply fuel (frames recs ++ torn) s ≡ apply_all apply recs s
  unfolding replay_loop
  replay_loop-frames recs torn zero s fits ends h = absurd (omega arith)
  replay_loop-frames [] torn (suc fuel) s fits ends h = rw (ends.stops, round, ends.clean)
  replay_loop-frames (rec ∷ recs) torn (suc fuel) s fits ends h =
      rw
        (
          append_assoc (frame rec) (frames recs) torn,
          decode_frame-frame rec (frames recs ++ torn) fits.0,
          round,
        )
        (ap (λ k. apply s rec >>= k)
          (fun_ext λ s'. replay_loop-frames recs torn fuel s' fits.1 ends (omega arith)))

  length-frames : (recs : List (List ℕ)) → length recs ≤ length (frames recs)
  length-frames [] = omega arith
  length-frames (rec ∷ recs) =
      omega (arith, length-append (frame rec) (frames recs), length-frame rec, length-frames recs)

  -- A log of whole frames with a torn end replays to exactly its records, in order.
  pub replay-frames :
      (recs : List (List ℕ)) (torn : List ℕ) (s : S)
      → AllFit recs
      → EndsLog torn
      → replay apply (frames recs ++ torn) s ≡ apply_all apply recs s
  unfolding replay
  replay-frames recs torn s fits ends =
      replay_loop-frames recs torn _ s fits ends
        (omega (arith, length-append (frames recs) torn, length-frames recs))

-- A decoded frame takes eight bytes at least.
abbrev Consumes : List ℕ → Run (List ℕ × List ℕ) → Type 0
Consumes r (ok p) = length p.1 + 8 ≤ length r
Consumes r (err e) = Unit
Consumes r _ = ⊥

abbrev Reads : List ℕ → ℕ → Run (List ℕ × List ℕ) → Type 0
Reads r n (ok p) = length p.1 + n ≡ length r
Reads r n (err e) = Unit
Reads r n _ = ⊥

read_full-Reads : (r : List ℕ) (n : ℕ) → Reads r n (read_full r n)
unfolding read_full
read_full-Reads r zero = omega arith
read_full-Reads [] (suc n) = tt
read_full-Reads (b ∷ r) (suc n) = ground (arith, length-drop n r)

decode_frame-Consumes : (r : List ℕ) → Consumes r (decode_frame r)
unfolding decode_frame
decode_frame-Consumes r = grind (arith, read_full-Reads)

-- The run ends, in whatever way.
abbrev pub Ends {κ} : {A : Type κ} → Run A → Type 0
Ends out_of_fuel = ⊥
Ends _ = Unit

pub >>=-Ends {κ μ} :
    {A : Type κ} {B : Type μ} (m : Run A) (f : A → Run B)
    → Ends m
    → ((a : A) → Ends (f a))
    → Ends (m >>= f)
>>=-Ends (ok a) f h k = k a
>>=-Ends (err e) f h k = tt
>>=-Ends panic f h k = tt
>>=-Ends out_of_fuel f h k = h

module _ {ℓ} {S : Type ℓ} (apply : S → List ℕ → Run S)
    (ends : (s : S) (rec : List ℕ) → Ends (apply s rec)) where
  round-Ends :
      (rest : List ℕ → S → Run S) (r : List ℕ) (s : S) (m : Run (List ℕ × List ℕ))
      → Consumes r m
      → ((r' : List ℕ) (s' : S) → length r' + 8 ≤ length r → Ends (rest r' s'))
      → Ends (round apply rest s m)
  round-Ends rest r s (ok p) c next =
      >>=-Ends (apply s p.0) (rest p.1) (ends s p.0) (λ s'. next p.1 s' c)
  round-Ends rest r s (err e) c next = ground arith
  round-Ends rest r s panic c next = tt
  round-Ends rest r s out_of_fuel c next = c

  replay_loop-Ends :
      (fuel : ℕ) (r : List ℕ) (s : S) → length r < fuel → Ends (replay_loop apply fuel r s)
  unfolding replay_loop
  replay_loop-Ends zero r s h = absurd (omega arith)
  replay_loop-Ends (suc fuel) r s h =
      round-Ends (replay_loop apply fuel) r s (decode_frame r) (decode_frame-Consumes r)
        λ r' s' shorter. replay_loop-Ends fuel r' s' (omega arith)

  -- The fuel is enough for any file.
  pub replay-Ends : (bytes : List ℕ) (s : S) → Ends (replay apply bytes s)
  unfolding replay
  replay-Ends bytes s = replay_loop-Ends _ bytes s (omega arith)
