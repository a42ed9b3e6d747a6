-- ===== src/Memory/Interface.antt =====
-- `Allocation` and the interface `Allocator` of include/marl/memory.hpp.
use mini_marl.Base.{ℕ, Bool, Run}

-- `Allocation::Usage`, without the bound `Count`
pub data Usage : Type 0 where
  undefined_ stack create vector list stl : Usage

-- `Allocation::Request`
pub record Request : Type 0 where
  pub size : ℕ
  pub alignment : ℕ
  pub use_guards : Bool
  pub usage : Usage

-- `Allocation`
pub record Allocation : Type 0 where
  pub ptr : ℕ
  pub request : Request

-- The two virtual functions of `Allocator`, over the state of the allocator and what lies behind it.
pub record Allocator (S : Type 0) : Type 0 where
  pub allocate : Request → S → Run (Allocation × S)
  pub free : Allocation → S → Run S
