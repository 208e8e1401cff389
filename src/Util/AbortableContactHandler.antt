-- ===== src/Util/AbortableContactHandler.antt =====
-- cbindings/util/abortablecontacthandler.cpp: a contact handler that passes its callback on unless it
-- was aborted, and that deletes itself then. An object on the heap is `none` once it is deleted, and
-- a call of a deleted object is a fault. The callback of the handler works on a state `S`.
use gocusp.Base.{Option, if◌then◌else◌, none, some, ◌==◌}
use gocusp.Runtime.Engine.{Pointer}
use gocusp.Runtime.World.{M, memory_fault, pure, stop, ◌>>=◌}

pub record AbortableContactHandler : Type 0 where
  -- The handler that it passes to, or NULL.
  pub handler : Pointer

unfoldable pub create : Pointer → Option AbortableContactHandler
create handler = some (record { handler = handler })

unfoldable pub abort : Option AbortableContactHandler → M (Option AbortableContactHandler)
abort none = stop memory_fault
abort (some a) = pure (some (record a { handler = 0 }))

-- delete
unfoldable pub delete : Option AbortableContactHandler → M (Option AbortableContactHandler)
delete none = stop memory_fault
delete (some a) = pure none

module _ {S : Type 0} where
  -- `if (handler) handler->f(...); delete this;`
  abbrev passed_on :
      (Pointer → S → M S)
      → Option AbortableContactHandler
      → S
      → M (Option AbortableContactHandler × S)
  passed_on f none s = stop memory_fault
  passed_on f (some a) s =
      if a.handler == 0 then pure (none, s) else (do s1 ← f a.handler s; pure (none, s1))

  -- The callback of the wrapped handler is given with its arguments.
  unfoldable pub on_contact :
      (Pointer → S → M S)
      → Option AbortableContactHandler
      → S
      → M (Option AbortableContactHandler × S)
  on_contact = passed_on

  unfoldable pub on_contact_fail :
      (Pointer → S → M S)
      → Option AbortableContactHandler
      → S
      → M (Option AbortableContactHandler × S)
  on_contact_fail = passed_on
