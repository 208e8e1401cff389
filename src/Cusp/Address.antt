-- ===== src/Cusp/Address.antt =====
-- cusp.cpp: Address.
use gocusp.Cusp.Ref.{Ref, assert_handle, ref_or_invalid}
use gocusp.Runtime.Engine.{Bytes, Engine}
use gocusp.Runtime.Exports.EndPoint.{cusp_address_from_string, cusp_address_to_string}
use gocusp.Runtime.Handles.{address}
use gocusp.Runtime.World.{M, ◌>>=◌, ◌>>◌}

module _ (E : Engine) where
  unfoldable pub from_string : Bytes → M (Ref address)
  from_string str = do handle ← cusp_address_from_string E str; ref_or_invalid address handle

  unfoldable pub to_string : Ref address → M Bytes
  to_string a = do assert_handle a.handle; cusp_address_to_string E a.handle
