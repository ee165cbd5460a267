-- ===== src/Asm/Call.antt =====
-- C calls of functions that consist of assembly, on a state of what the code cannot reach and
-- memory.
use djstub.Base.{ℕ, List, Bytes}
use djstub.Asm.{Machine, Interrupts, run}
use djstub.Asm.Frame.{frame}
use djstub.Dpmi.Descriptors.{Code}

module _ {H : Type 0} where
  abbrev pub state : Machine H → H × Bytes
  state r = (r.host, r.mem)

  abbrev pub result : Machine H → ℕ × (H × Bytes)
  result r = (r.eax, state r)

-- The registers at a call and the address that it returns to.
module _ {H : Type 0} (h : Interrupts H) (regs : Machine H) (ret : ℕ) where
  abbrev pub before : H × Bytes → Machine H
  before (host, mem) = record regs { host = host; mem = mem }

  -- The state in which the assembly of the function starts, and that in which it ends.
  abbrev pub entered : List ℕ → H × Bytes → Machine H
  entered args s = frame ret args (before s)

  abbrev pub left : Code → List ℕ → H × Bytes → Machine H
  left code args s = run h code (entered args s)
