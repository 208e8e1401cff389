-- ===== src/Runtime/Exports/Keys.antt =====
-- libcusp.sml: SuiteSet, Suite, PublicKey and PrivateKey. The functions on suites exist for the
-- public key suites and for the symmetric suites, told apart here by the first argument.
use gocusp.Base.{Option, [], none, some, ℕ}
use gocusp.Ml.{minus_one, ℤ}
use gocusp.Runtime.Engine.{
  Bytes, Engine, Obj, SuiteKind, private_key_load, private_key_new, private_key_pubkey,
  private_key_save, public_key_suite, public_key_to_string, suite_all, suite_cheapest, suite_cost,
  suite_defaults, suite_name,
}
use gocusp.Runtime.Handles.{bucket_alloc, private_key, public_key, with_object}
use gocusp.Runtime.World.{M, perform, pure, ◌>>=◌}

module _ (E : Engine) where
  unfoldable pub cusp_suiteset_all : SuiteKind → M ℕ
  cusp_suiteset_all s = perform E E.word (suite_all s)

  unfoldable pub cusp_suiteset_defaults : SuiteKind → M ℕ
  cusp_suiteset_defaults s = perform E E.word (suite_defaults s)

  abbrev value_or_zero : Option ℕ → ℕ
  value_or_zero none = 0
  value_or_zero (some v) = v

  unfoldable pub cusp_suiteset_cheapest : SuiteKind → ℕ → M ℕ
  cusp_suiteset_cheapest s set' = do
    best ← perform E E.maybe_object (suite_cheapest s set')
    pure (value_or_zero best)

  unfoldable pub cusp_suite_name : SuiteKind → ℕ → M Bytes
  cusp_suite_name s value = perform E E.text (suite_name s value)

  unfoldable pub cusp_suite_cost : SuiteKind → ℕ → M ℕ
  cusp_suite_cost s value = perform E E.word (suite_cost s value)

  unfoldable pub cusp_publickey_to_string : ℤ → M Bytes
  cusp_publickey_to_string h =
      with_object public_key h (λ k. perform E E.text (public_key_to_string k)) []

  unfoldable pub cusp_publickey_suite : ℤ → M ℕ
  cusp_publickey_suite h = with_object public_key h (λ k. perform E E.word (public_key_suite k)) 0

  unfoldable pub cusp_privatekey_new : M ℤ
  cusp_privatekey_new = do k ← perform E E.object private_key_new; bucket_alloc private_key k

  unfoldable pub cusp_privatekey_save : ℤ → Bytes → M Bytes
  cusp_privatekey_save h password =
      with_object private_key h (λ k. perform E E.text (private_key_save k password)) []

  abbrev key_handle : Option Obj → M ℤ
  key_handle none = pure minus_one
  key_handle (some k) = bucket_alloc private_key k

  unfoldable pub cusp_privatekey_load : Bytes → Bytes → M ℤ
  cusp_privatekey_load key password = do
    k ← perform E E.maybe_object (private_key_load key password)
    key_handle k

  unfoldable pub cusp_privatekey_pubkey : ℤ → ℕ → M ℤ
  cusp_privatekey_pubkey h suite =
      with_object private_key h
        (λ k. do p ← perform E E.object (private_key_pubkey k suite); bucket_alloc public_key p)
        minus_one
