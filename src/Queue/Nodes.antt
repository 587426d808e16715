-- ===== src/Queue/Nodes.antt =====
-- Nodes at addresses. A null pointer and an address that holds no node are faults (`none`).
use cse344_coursework.Base.{ℕ, ℤ, Option, none, some, ◌==◌, if◌then◌else◌, ◌>>=◌}

abbrev pub Ptr : Type 0
Ptr = ℕ

abbrev pub null : Ptr
null = 0

pub record Node : Type 0 where
  pub fd : ℤ
  pub next : Ptr

abbrev pub node : ℤ → Ptr → Node
node v q = record { fd = v; next = q }

abbrev pub Heap : Type 0
Heap = Ptr → Option Node

unfoldable pub write : Heap → Ptr → Option Node → Heap
write h p c a = if a == p then c else h a

-- `*p`
unfoldable pub read : Heap → Ptr → Option Node
read h p = if p == null then none else h p

-- `p->next = q`
unfoldable pub set_next : Heap → Ptr → Ptr → Option Heap
unfolding read write
set_next h p q = do n ← read h p; some (write h p (some (node n.fd q)))
