-- ===== src/Util/Memory.antt =====
-- realloc and memcpy, as far as cbindings/util uses them. A block is the list of its bytes.
use gocusp.Base.{
  Bool, Option, [], drop, if◌then◌else◌, leb, length, none, some, tabulate, take, ℕ, ◌++◌, ◌+◌, ◌-◌,
}
use gocusp.Runtime.Engine.{Bytes}
use gocusp.Runtime.World.{M, memory_fault, pure, stop}

-- The C allocator: the sizes it has room for, and the bytes that it leaves in new memory.
pub record Allocator : Type 0 where
  pub has_room : ℕ → Bool
  pub junk : ℕ → ℕ

-- The bytes behind a pointer, which may be NULL.
abbrev pub block : Option Bytes → Bytes
block none = []
block (some bytes) = bytes

-- realloc(p, n): NULL when there is no room.
abbrev pub realloc : Allocator → Option Bytes → ℕ → Option Bytes
realloc A p n =
    if A.has_room n then some (take n (block p) ++ tabulate (n - length (block p)) A.junk) else none

-- memcpy(p + at', data, len)
abbrev pub memcpy : Option Bytes → ℕ → Bytes → M (Option Bytes)
memcpy p at' bytes =
    if leb (at' + length bytes) (length (block p))
    then pure (some (take at' (block p) ++ bytes ++ drop (at' + length bytes) (block p)))
    else stop memory_fault

-- The first n bytes behind a pointer.
abbrev pub read_block : Option Bytes → ℕ → M Bytes
read_block p n = if leb n (length (block p)) then pure (take n (block p)) else stop memory_fault
