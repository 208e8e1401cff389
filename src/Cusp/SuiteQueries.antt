-- ===== src/Cusp/SuiteQueries.antt =====
-- cusp.cpp: what PublicKeySuite, SymmetricSuite and their sets ask the SML side. A cost is the bit
-- pattern of a float.
use gocusp.Base.{ℕ}
use gocusp.Cusp.Suite.{suite_is_valid}
use gocusp.Runtime.Engine.{Bytes, Engine, SuiteKind, public_key_suites, symmetric_suites}
use gocusp.Runtime.Exports.Keys.{
  cusp_suite_cost, cusp_suite_name, cusp_suiteset_all, cusp_suiteset_cheapest,
  cusp_suiteset_defaults,
}
use gocusp.Runtime.World.{M, check, ◌>>◌}

module _ (E : Engine) where
  abbrev name_of : SuiteKind → ℕ → M Bytes
  name_of s value = do check (suite_is_valid value); cusp_suite_name E s value

  abbrev cost_of : SuiteKind → ℕ → M ℕ
  cost_of s value = do check (suite_is_valid value); cusp_suite_cost E s value

  unfoldable pub public_key_suite_name : ℕ → M Bytes
  public_key_suite_name = name_of public_key_suites

  unfoldable pub public_key_suite_cost : ℕ → M ℕ
  public_key_suite_cost = cost_of public_key_suites

  unfoldable pub public_key_set_all : M ℕ
  public_key_set_all = cusp_suiteset_all E public_key_suites

  unfoldable pub public_key_set_defaults : M ℕ
  public_key_set_defaults = cusp_suiteset_defaults E public_key_suites

  unfoldable pub public_key_set_cheapest : ℕ → M ℕ
  public_key_set_cheapest set' = cusp_suiteset_cheapest E public_key_suites set'

  unfoldable pub symmetric_suite_name : ℕ → M Bytes
  symmetric_suite_name = name_of symmetric_suites

  unfoldable pub symmetric_suite_cost : ℕ → M ℕ
  symmetric_suite_cost = cost_of symmetric_suites

  unfoldable pub symmetric_set_all : M ℕ
  symmetric_set_all = cusp_suiteset_all E symmetric_suites

  unfoldable pub symmetric_set_defaults : M ℕ
  symmetric_set_defaults = cusp_suiteset_defaults E symmetric_suites

  unfoldable pub symmetric_set_cheapest : ℕ → M ℕ
  symmetric_set_cheapest set' = cusp_suiteset_cheapest E symmetric_suites set'
