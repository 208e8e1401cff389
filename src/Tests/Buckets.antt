-- ===== src/Tests/Buckets.antt =====
-- IdBucket at concrete tables.
use gocusp.Base.{refl}
use gocusp.IdBucket.Alloc.{Allocated, alloc-Allocated}
use gocusp.IdBucket.Chain.{IsValid}
use gocusp.IdBucket.History.{Reachable-alloc}
use gocusp.IdBucket.Release.{Released, free-Released}
use gocusp.Tests.Samples.{two_used, two_used-IsValid, two_used-Reachable}

alloc-Allocated_example : Allocated two_used 30
alloc-Allocated_example = alloc-Allocated two_used 30 two_used-IsValid

free-Released_example : Released two_used 2
free-Released_example = free-Released two_used 2 20 two_used-IsValid refl

Reachable-alloc_example : IsValid two_used × Allocated two_used 30
Reachable-alloc_example = Reachable-alloc 30 two_used-Reachable
