-- ===== src/LoadTest/Store.antt =====
-- cmd/loadtest/store.go: the consumer endpoint, which applies an effect once per key.
use gojobs.Prelude.{
  ℕ, ◌+◌, ◌≡◌, refl, Bool, true, Option, some, none, List, [], length, arith, if◌then◌else◌,
  bytes_eq,
}
use gojobs.Prelude.Map.{Map, bytes_key, lookup, put}
use gojobs.Prelude.Map.Size.{has, has-put, IsMap, put-IsMap, length-put}

pub record EffectStore : Type 0 where
  pub applied : Map (List ℕ) ℕ
  pub total : ℕ

unfoldable pub new_effect_store : EffectStore
new_effect_store = record { applied = []; total = 0 }

-- m[k] of a map that counts: 0 for a key that is not there
abbrev pub tally : List ℕ → Map (List ℕ) ℕ → ℕ
tally key m = or_zero (lookup key m)
  where
    or_zero : Option ℕ → ℕ
    or_zero none = 0
    or_zero (some n) = n

unfoldable pub apply : List ℕ → EffectStore → EffectStore
apply key s = record { applied = put key (tally key s.applied + 1) s.applied; total = s.total + 1 }

unfoldable pub distinct : EffectStore → ℕ
distinct s = length s.applied

unfoldable pub deliveries : EffectStore → ℕ
deliveries s = s.total

-- The effect of this key has landed.
abbrev pub landed : List ℕ → EffectStore → Bool
landed key s = has key s.applied

pub apply-landed :
    (key k : List ℕ) (s : EffectStore)
    → landed k (apply key s) ≡ (if bytes_eq key k then true else landed k s)
unfolding apply
apply-landed key k s = has-put key k (tally key s.applied + 1) s.applied

pub apply-IsMap : (key : List ℕ) (s : EffectStore) → IsMap s.applied → IsMap (apply key s).applied
unfolding apply
apply-IsMap key s h = put-IsMap key (tally key s.applied + 1) s.applied h

-- A delivery is counted in any case, its effect only if it is the first one of its key.
pub apply-counts :
    (key : List ℕ) (s : EffectStore)
    → IsMap s.applied
    → (deliveries (apply key s) ≡ deliveries s + 1)
      × (distinct (apply key s) ≡ (if landed key s then distinct s else distinct s + 1))
unfolding apply distinct deliveries
apply-counts key s h = (refl, ground (arith, length-put key (tally key s.applied + 1) s.applied h))
