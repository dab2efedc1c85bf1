-- ===== src/Sphinx/Delay.antt =====
-- src/core/sphinx/delay.rs: forwarding delays without a unit.
use mixnet.Base.{Bytes, ◌++◌}
use mixnet.Sphinx.Packages.{Packages}

module _ {State : Type 0} (p : Packages State) where
  -- `Delay::zero`, `Delay::exp` of a seed, and `Add` and `AddAssign` for `Delay`.
  unfoldable pub zero_delay : p.F64
  zero_delay = p.f64_zero

  unfoldable pub exp : Bytes → p.F64
  exp seed = p.f64_min (p.sample_exp1 (seed ++ seed)) p.f64_ten

  unfoldable pub add : p.F64 → p.F64 → p.F64
  add d e = p.f64_add d e
