-- ===== src/Cusp/Keys.antt =====
-- cusp.cpp: PublicKey and PrivateKey.
use gocusp.Base.{not, ℕ, ◌==◌}
use gocusp.Cusp.Ref.{Ref, assert_handle, ref_of, ref_or_invalid}
use gocusp.Runtime.Engine.{Bytes, Engine}
use gocusp.Runtime.Exports.Keys.{
  cusp_privatekey_load, cusp_privatekey_new, cusp_privatekey_pubkey, cusp_privatekey_save,
  cusp_publickey_suite, cusp_publickey_to_string,
}
use gocusp.Runtime.Handles.{private_key, public_key}
use gocusp.Runtime.World.{M, check, pure, ◌>>=◌, ◌>>◌}

module _ (E : Engine) where
  unfoldable pub public_key_to_text : Ref public_key → M Bytes
  public_key_to_text k = do assert_handle k.handle; cusp_publickey_to_string E k.handle

  unfoldable pub suite_of : Ref public_key → M ℕ
  suite_of k = do
    assert_handle k.handle
    suite ← cusp_publickey_suite E k.handle
    check (not (suite == 0))
    pure suite

  unfoldable pub create : M (Ref private_key)
  create = do h ← cusp_privatekey_new E; ref_or_invalid private_key h

  unfoldable pub save : Ref private_key → Bytes → M Bytes
  save k password = do assert_handle k.handle; cusp_privatekey_save E k.handle password

  unfoldable pub load : Bytes → Bytes → M (Ref private_key)
  load key password = do h ← cusp_privatekey_load E key password; ref_or_invalid private_key h

  unfoldable pub pubkey : Ref private_key → ℕ → M (Ref public_key)
  pubkey k suite = do
    assert_handle k.handle
    ref_of public_key (cusp_privatekey_pubkey E k.handle suite)
