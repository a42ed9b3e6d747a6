-- ===== src/OsFiber.antt =====
-- `OSFiber` of src/osfiber_asm.hpp, on x86-64: src/arch/osfiber_asm_x64.h, osfiber_asm_x64.S and
-- osfiber_x64.c. A context is the struct at an address; stacks are words of memory apart from them.
pub mod Resume
pub mod Create
use mini_marl.Base.{ℕ, ◌+◌, ◌-◌, ◌%◌, ◌^◌, true, put, Option, none, some, Run, ok, undefined, ◌>>=◌}
use mini_marl.Memory.Align.{size_mod}
use mini_marl.Memory.Interface.{Usage, Request, Allocation, Allocator}
use mini_marl.Memory.Objects.{Layout, UniquePtr, delete_unique, make_unique_n}

-- `marl_fiber_context`
pub record Context : Type 0 where
  pub rbx : ℕ
  pub rbp : ℕ
  pub r12 : ℕ
  pub r13 : ℕ
  pub r14 : ℕ
  pub r15 : ℕ
  pub rdi : ℕ
  pub rsi : ℕ
  pub rsp : ℕ
  pub rip : ℕ

-- `out->context_ = {}`
abbrev pub empty_context : Context
empty_context = record {
  rbx = 0;
  rbp = 0;
  r12 = 0;
  r13 = 0;
  r14 = 0;
  r15 = 0;
  rdi = 0;
  rsi = 0;
  rsp = 0;
  rip = 0;
}

-- The registers of the thread that the code names, the contexts by their address, and the words on
-- stacks by theirs.
pub record Machine : Type 0 where
  pub regs : Context
  pub context : ℕ → Context
  pub word : ℕ → ℕ

-- The instruction `call`, which leaves `ret` on the stack, with the two arguments in their registers.
unfoldable pub call_swap : ℕ → ℕ → ℕ → Machine → Machine
call_swap from to ret m = record m {
  regs = record m.regs { rdi = from; rsi = to; rsp = (m.regs.rsp + size_mod - 8) % size_mod };
  word = put ((m.regs.rsp + size_mod - 8) % size_mod) ret m.word;
}

-- The first half of `marl_fiber_swap`
unfoldable pub save : Machine → Machine
save m = record m {
  context =
      put m.regs.rdi
        (record (m.context m.regs.rdi) {
          rbx = m.regs.rbx;
          rbp = m.regs.rbp;
          r12 = m.regs.r12;
          r13 = m.regs.r13;
          r14 = m.regs.r14;
          r15 = m.regs.r15;
          rip = m.word m.regs.rsp;
          rsp = (m.regs.rsp + 8) % size_mod;
        })
        m.context;
}

-- The second half, with the jump
unfoldable pub load : Machine → Machine
load m = record m { regs = m.context m.regs.rsi }

-- `marl_fiber_swap`
unfoldable pub swap : Machine → Machine
unfolding save load
swap m = load (save m)

-- `OSFiber::switchTo`, called with the return address `ret`.
unfoldable pub switch_to : ℕ → ℕ → ℕ → Machine → Machine
unfolding call_swap swap
switch_to this fiber ret m = swap (call_swap this fiber ret m)

-- `marl_fiber_set_target`, where `trampoline` is the address of `marl_fiber_trampoline`. A
-- `stack_top[-2]` that is no address wraps.
unfoldable pub set_target : ℕ → ℕ → ℕ → ℕ → ℕ → ℕ → Machine → Machine
set_target trampoline ctx stack stack_size target arg m =
    let stack_top = stack + stack_size in
    record m {
      context =
          put ctx
            (record (m.context ctx) {
              rip = trampoline;
              rdi = target;
              rsi = arg;
              rsp = (stack_top + size_mod - 24) % size_mod;
            })
            m.context;
      word = put ((stack_top + size_mod - 16) % size_mod) 0 m.word;
    }

-- The request for the stack; `MARL_USE_FIBER_STACK_GUARDS` is 1.
abbrev pub stack_request : ℕ → Request
stack_request stack_size = record {
  size = stack_size;
  alignment = 16;
  use_guards = true;
  usage = Usage.stack;
}

-- A fiber: the object, and its stack; a null pointer there is `none`.
pub record OsFiber : Type 0 where
  pub object : UniquePtr
  pub stack_ : Option Allocation

-- The address of `context_`, which stands behind the pointer `allocator_`.
abbrev pub context_of : ℕ → ℕ
context_of object = object + 8

-- `make_unique<OSFiber>` never gives a null pointer, since it makes one object.
abbrev pub held : Option UniquePtr → Run UniquePtr
held none = undefined
held (some u) = ok u

module _ {S : Type 0} (allocator : Allocator S) (t : Layout) where
  -- `createFiberFromCurrentThread`
  unfoldable pub create_from_thread : S × Machine → Run (OsFiber × (S × Machine))
  create_from_thread (s, m) = do
    (o, s1) ← make_unique_n allocator t 1 s
    u ← held o
    ok (
      record { object = u; stack_ = none },
      (s1, record m { context = put (context_of u.ptr) empty_context m.context }),
    )

  -- `createFiber`, where `run` is the address of `OSFiber::run`.
  unfoldable pub create_fiber : ℕ → ℕ → ℕ → S × Machine → Run (OsFiber × (S × Machine))
  unfolding create_from_thread set_target
  create_fiber trampoline run stack_size (s, m) = do
    (fiber, (s1, m1)) ← create_from_thread (s, m)
    (stack, s2) ← allocator.allocate (stack_request stack_size) s1
    let ctx = context_of fiber.object.ptr
    ok (
      record fiber { stack_ = some stack },
      (s2, set_target trampoline ctx stack.ptr (stack_size % 2 ^ 32) run fiber.object.ptr m1),
    )

  -- The destructor, and the `Deleter` of the object.
  unfoldable pub delete_fiber : OsFiber → S → Run S
  unfolding delete_unique
  delete_fiber fiber s = elim fiber.stack_ [
    | none ↦ delete_unique allocator t fiber.object s
    | some stack ↦ allocator.free stack s >>= delete_unique allocator t fiber.object
  ]
