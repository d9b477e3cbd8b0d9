-- ===== src/Wal/Cut.antt =====
-- A log that was cut off at any byte (internal/queue/wal.go).
use gojobs.Prelude.{
  ℕ, ◌-◌, ◌≤◌, ◌≡◌, refl, sym, ap, ◌∙◌, List, [], ◌∷◌, ◌++◌, append_assoc, length, take, take-nil,
  take-append_left, take-append_right, length-append, arith,
}
use native.Mathlib.Decide.{dec_lt}
use gojobs.Wal.Frame.{frame}
use gojobs.Wal.Replay.{EndsLog, frames, AllFit}
use gojobs.Wal.Torn.{EndsLog-nil, EndsLog-take}

pub frames-append : (xs ys : List (List ℕ)) → frames (xs ++ ys) ≡ frames xs ++ frames ys
frames-append [] ys = refl
frames-append (x ∷ xs) ys =
    ap (λ l. frame x ++ l) (frames-append xs ys)
    ∙ sym (append_assoc (frame x) (frames xs) (frames ys))

pub AllFit-append : (xs ys : List (List ℕ)) → AllFit xs → AllFit ys → AllFit (xs ++ ys)
AllFit-append [] ys hx hy = hy
AllFit-append (x ∷ xs) ys hx hy = (hx.0, AllFit-append xs ys hx.1 hy)

-- The file is cut somewhere: whole frames of the first records are left, and a torn end.
pub record Cut (recs : List (List ℕ)) (k : ℕ) : Type 0 where
  pub kept : List (List ℕ)
  pub lost : List (List ℕ)
  pub torn : List ℕ
  pub split : recs ≡ kept ++ lost
  pub fits : AllFit kept
  pub bytes : take k (frames recs) ≡ frames kept ++ torn
  pub ends : EndsLog torn
  pub whole : length (frames recs) ≤ k → kept ≡ recs

pub cut : (recs : List (List ℕ)) (k : ℕ) → AllFit recs → Cut recs k
cut [] k fits = record {
  kept = [];
  lost = [];
  torn = [];
  split = refl;
  fits = tt;
  bytes = take-nil k;
  ends = EndsLog-nil;
  whole = λ _. refl;
}
cut (rec ∷ recs) k fits = elim (dec_lt k (length (frame rec))) [
  | yes short ↦ record {
    kept = [];
    lost = rec ∷ recs;
    torn = take k (frame rec);
    split = refl;
    fits = tt;
    bytes = take-append_left k (frame rec) (frames recs) (omega arith);
    ends = EndsLog-take rec k fits.0 short;
    whole = λ h. absurd (omega (arith, length-append (frame rec) (frames recs)));
  }
  | no long ↦
      let rest = cut recs (k - length (frame rec)) fits.1 in
      record {
        kept = rec ∷ rest.kept;
        lost = rest.lost;
        torn = rest.torn;
        split = ap (◌∷◌ rec) rest.split;
        fits = (fits.0, rest.fits);
        bytes =
            take-append_right k (frame rec) (frames recs) (omega arith)
            ∙ ap (λ l. frame rec ++ l) rest.bytes
            ∙ sym (append_assoc (frame rec) (frames rest.kept) rest.torn);
        ends = rest.ends;
        whole =
            λ h. ap (◌∷◌ rec) (rest.whole (omega (arith, length-append (frame rec) (frames recs))));
      }
]
