-- ===== src/Tests/FiberRuns.antt =====
-- Fibers of src/osfiber_asm.hpp at concrete inputs.
use mini_marl.Base.{ℕ, ◌+◌, ◌*◌, ◌%◌, ◌≡◌, refl, ap, arith, ok, ◌>>=◌}
use mini_marl.Memory.Interface.{Allocation, Allocator}
use mini_marl.Memory.Objects.{Layout, delete_unique, array_request}
use mini_marl.OsFiber.{
  Machine, OsFiber, context_of, empty_context, stack_request, create_fiber, delete_fiber, switch_to,
  set_target,
}
use mini_marl.OsFiber.Resume.{Resumes, Enters, switch_to-Resumes}
use mini_marl.OsFiber.Create.{create_fiber-Enters}

-- A thread in the middle of its work.
abbrev busy : Machine
busy = record {
  regs = record {
    rbx = 1;
    rbp = 7340032;
    r12 = 12;
    r13 = 13;
    r14 = 14;
    r15 = 15;
    rdi = 0;
    rsi = 0;
    rsp = 7339984;
    rip = 4198400;
  };
  context = λ c. empty_context;
  word = λ a. a;
}

-- The main fiber, with its context at 1000, switches to a new one at 2000, which then runs.
abbrev started : Machine
started = set_target 4000 2000 65536 4096 5000 1992 busy

abbrev in_new : Machine
in_new = switch_to 1000 2000 4200 started

-- The new fiber is at its entry.
entry : in_new.regs.rip ≡ 4000
unfolding switch_to set_target
entry = refl

switch_to-Resumes_example : Resumes busy.regs 4200 (switch_to 2000 1000 6000 in_new).regs
unfolding switch_to set_target
switch_to-Resumes_example =
    switch_to-Resumes 1000 2000 2000 4200 6000 started in_new (omega arith) (omega arith)
      (omega arith) refl

-- An allocator whose blocks begin at multiples of 64 KiB.
abbrev big_pages : Allocator ℕ
big_pages = record {
  allocate = λ r n. ok (record { ptr = 65536 * (n % 65536); request = r }, n + 1);
  free = λ a n. ok (n + 1);
}

-- The object of a fiber.
abbrev os_fiber : Layout
os_fiber = record { sizeof = 176; alignof = 8 }

create_fiber-Enters_example :
    (fiber : OsFiber) × (stack : Allocation) × (s' : ℕ) × (m' : Machine) × (create_fiber big_pages
        os_fiber 4000 5000 16384
        (1, busy)
      ≡ ok (fiber, (s', m')))
    × (stack.request ≡ stack_request 16384)
    × Enters 4000 stack.ptr 16384 5000 fiber.object.ptr busy.word m'.word
        (switch_to 1000 (context_of fiber.object.ptr) 4200 m').regs
    × (delete_fiber big_pages os_fiber fiber 9
        ≡ (big_pages.free stack 9 >>= delete_unique big_pages os_fiber fiber.object))
create_fiber-Enters_example =
    create_fiber-Enters big_pages os_fiber 4000 5000 16384 1000 4200 1 9 busy
      (λ s. (
        record { ptr = 65536 * (s % 65536); request = array_request os_fiber 1 },
        s + 1,
        refl,
        refl,
        omega arith,
        omega arith,
      ))
      (λ s. (
        record { ptr = 65536 * (s % 65536); request = stack_request 16384 },
        s + 1,
        refl,
        refl,
        omega arith,
        omega arith,
      ))
      (omega arith) (omega arith) (omega arith)
      (λ a s' e.
        let at : a ≡ record { ptr = 65536; request = array_request os_fiber 1 } = cc in
        rw (ap (λ a. a.ptr) at) (omega arith))
