-- ===== src/Prelude/Maps.antt =====
-- Maps keyed by an identifier, as association lists with one entry for each key that was set.
use Prim.Native.Nat.{ℕ}
use mathlib.Core.Path.{◌≡◌, refl}
use mathlib.Core.Option.{Option, none, some}
use mathlib.Core.List.{List, [], ◌∷◌}
use native.Mathlib.Omega.{arith}
use runkit.Prelude.Tests.{◌==◌, if◌then◌else◌}

module _ {ℓ} {V : Type ℓ} where
  abbrev pub get : List (ℕ × V) → ℕ → Option V
  get [] k = none
  get ((j, v) ∷ m) k = if j == k then some v else get m k

  abbrev pub set : List (ℕ × V) → ℕ → V → List (ℕ × V)
  set [] k v = (k, v) ∷ []
  set ((j, w) ∷ m) k v = if j == k then (k, v) ∷ m else (j, w) ∷ set m k v

  abbrev pub delete : List (ℕ × V) → ℕ → List (ℕ × V)
  delete [] k = []
  delete ((j, w) ∷ m) k = if j == k then delete m k else (j, w) ∷ delete m k

  pub get-set :
      (m : List (ℕ × V)) (k : ℕ) (v : V) (i : ℕ)
      → get (set m k v) i ≡ (if k == i then some v else get m i)
  get-set [] k v i = refl
  get-set ((j, w) ∷ m) k v i = ground (arith, get-set m k v i)

  pub get-delete :
      (m : List (ℕ × V)) (k i : ℕ) → get (delete m k) i ≡ (if k == i then none else get m i)
  get-delete [] k i = ground arith
  get-delete ((j, w) ∷ m) k i = ground (arith, get-delete m k i)
