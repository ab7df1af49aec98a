-- ===== src/Vector/Generous.antt =====
-- `Register::register` with an allocator that refuses nothing.
use interpol.Base.{ℕ, ◌*◌, ◌≤◌, ◌≡◌, refl, true, some, arith, length}
use interpol.Error.{TryReserveError}
use interpol.Vector.{
  Vec, max_capacity, Memory, Pushed, pushed, refused, overflowed, out_of_memory, register, IsValid,
}
use interpol.Vector.Growth.{Registers, register-Registers}

pub record IsGenerous (memory : Memory) : Type 0 where
  pub reserves : (n : ℕ) → (slack : ℕ) × (memory.reserve n ≡ some slack)
  pub boxes : memory.boxes ≡ true
  pub grows : (n : ℕ) → (slack : ℕ) × (memory.grow n ≡ some slack)

module _ {A : Type 0} (memory : Memory) (generous : IsGenerous memory) (v : Vec A) (x : A) where
  of_Registers :
      3 * length v.items ≤ max_capacity
      → (p : Pushed A) → Registers memory v x p
      → (v' : Vec A) × (p ≡ pushed v') × Registers memory v x (pushed v')
  of_Registers room (pushed v') h = (v', refl, h)
  of_Registers room (refused TryReserveError.capacity_overflow) h = absurd (omega arith)
  of_Registers room (refused TryReserveError.alloc_error) h =
      absurd (ground (arith, generous.reserves (3 * length v.items)))
  of_Registers room overflowed h = absurd h
  of_Registers room out_of_memory h = absurd (ground (arith, generous.boxes, generous.grows 1))

  -- While there is room for three times the items, the call succeeds.
  pub register-IsGenerous :
      IsValid v
      → 3 * length v.items ≤ max_capacity
      → (v' : Vec A) × (register memory v x ≡ pushed v') × Registers memory v x (pushed v')
  register-IsGenerous h room =
      of_Registers room (register memory v x) (register-Registers memory v x h)
