-- ===== src/Base/Maps.antt =====
-- Go's maps as functions into `Option`, where the code neither ranges over them nor asks their size.
-- A nested map `m[i][j]` is one function of both keys: an inner map that was never made and an
-- empty one read alike. `map[K]struct{}` is a Boolean function.
use Prim.Native.Nat.{ℕ}
use mathlib.Core.Bool.{◌&&◌}
use mathlib.Core.Option.{Option, none, some}
use bft_mvba.Base.Tests.{◌==◌, if◌then◌else◌}

module _ {ℓ} {V : Type ℓ} where
  -- `m[k] = v`
  abbrev pub put : (ℕ → V) → ℕ → V → ℕ → V
  put m k v i = if k == i then v else m i

  -- `m[k][l] = v`
  abbrev pub put2 : (ℕ → ℕ → V) → ℕ → ℕ → V → ℕ → ℕ → V
  put2 m k l v i j = if k == i && l == j then v else m i j

  -- `m[k][l][n] = v`
  abbrev pub put3 : (ℕ → ℕ → ℕ → V) → ℕ → ℕ → ℕ → V → ℕ → ℕ → ℕ → V
  put3 m k l n v i j h = if k == i && l == j && n == h then v else m i j h

  -- The value under a key, or the value that the code makes on a miss.
  abbrev pub or_new : Option V → V → V
  or_new none v = v
  or_new (some v) _ = v
