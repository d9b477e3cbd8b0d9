-- ===== src/Prelude/Map/Size.antt =====
-- How many keys a map holds.
use Prim.Native.Nat.{ℕ, ◌+◌, ◌≤◌}
use mathlib.Core.Path.{◌≡◌, refl}
use mathlib.Core.Bool.{Bool, true, false}
use mathlib.Core.Option.{Option, none, some}
use mathlib.Core.List.{[], ◌∷◌}
use native.Mathlib.Omega.{arith}
use gojobs.Prelude.Tests.{if◌then◌else◌}
use gojobs.Prelude.Lists.{length}
use gojobs.Prelude.Map.{Eq, Map, lookup, remove, put, lookup-remove, lookup-put}

abbrev pub is_some {ℓ} : {A : Type ℓ} → Option A → Bool
is_some none = false
is_some (some a) = true

abbrev pub one_if : Bool → ℕ
one_if true = 1
one_if false = 0

module _ {ℓ κ} {K : Type ℓ} {V : Type κ} ⦃e : Eq K⦄ where
  -- _, ok := m[k]
  abbrev pub has : K → Map K V → Bool
  has k m = is_some (lookup k m)

  -- Every key stands in the list once.
  abbrev pub IsMap : Map K V → Type 0
  IsMap [] = Unit
  IsMap ((k, v) ∷ m) = (has k m ≡ false) × IsMap m

  has-remove : (k j : K) (m : Map K V) → has j (remove k m) ≡ (if e.beq k j then false else has j m)
  has-remove k j m = ground (arith, lookup-remove k j m)

  pub has-put :
      (k j : K) (v : V) (m : Map K V) → has j (put k v m) ≡ (if e.beq k j then true else has j m)
  has-put k j v m = ground (arith, lookup-put k j v m)

  pub remove-IsMap : (k : K) (m : Map K V) → IsMap m → IsMap (remove k m)
  unfolding remove
  remove-IsMap k [] h = tt
  remove-IsMap k ((j, v) ∷ m) h = ground (arith, remove-IsMap k m h.1, has-remove k j m)

  pub put-IsMap : (k : K) (v : V) (m : Map K V) → IsMap m → IsMap (put k v m)
  unfolding put
  put-IsMap k v m h = ground (arith, remove-IsMap k m h, has-remove k k m, e.beq_iff k k)

  remove_absent : (k : K) (m : Map K V) → has k m ≡ false → length (remove k m) ≡ length m
  unfolding remove lookup
  remove_absent k [] h = refl
  remove_absent k ((j, v) ∷ m) h = ground (arith, remove_absent k m)

  pub length-remove :
      (k : K) (m : Map K V) → IsMap m → length (remove k m) + one_if (has k m) ≡ length m
  unfolding remove lookup
  length-remove k [] h = refl
  length-remove k ((j, v) ∷ m) h =
      ground (arith, length-remove k m h.1, remove_absent k m, e.beq_iff j k)

  pub length-put :
      (k : K) (v : V) (m : Map K V) → IsMap m → length (put k v m) + one_if (has k m) ≡ length m + 1
  unfolding put
  length-put k v m h = omega (arith, length-remove k m h)

-- A map whose keys another one has is no larger.
pub length-le {ℓ κ κ'} :
    {K : Type ℓ} {V : Type κ} {W : Type κ'} ⦃e : Eq K⦄ (m : Map K V) (n : Map K W)
    → IsMap m
    → IsMap n
    → ((k : K) → has k m ≡ true → has k n ≡ true)
    → length m ≤ length n
unfolding lookup
length-le [] n hm hn h = omega arith
length-le ⦃e⦄ ((k, v) ∷ m) n hm hn h =
    let there : has k n ≡ true = grind (arith, h k, e.beq_iff k k) in
    let rest =
      length-le m (remove k n) hm.1 (remove-IsMap k n hn)
        λ j p. grind (arith, h j, has-remove k j n, e.beq_iff k j, hm.0, p) in
    grind (arith, rest, length-remove k n hn, there)
