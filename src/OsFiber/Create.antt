-- ===== src/OsFiber/Create.antt =====
-- A fiber that is created can be switched to, and its memory goes back to the allocator.
use mini_marl.Base.{ℕ, ◌+◌, ◌%◌, ◌^◌, ◌≤◌, ◌<◌, ◌≡◌, ◌≢◌, refl, put, some, arith, ok, ◌>>=◌}
use mini_marl.Memory.Align.{size_mod}
use mini_marl.Memory.Interface.{Request, Allocation, Allocator}
use mini_marl.Memory.Objects.{array_request, Layout, UniquePtr, make_unique_n, delete_unique}
use mini_marl.OsFiber.{
  Machine, OsFiber, context_of, stack_request, create_from_thread, create_fiber, delete_fiber,
  switch_to, set_target, empty_context,
}
use mini_marl.OsFiber.Resume.{Enters, set_target-Enters}

module _ {S : Type 0} (allocator : Allocator S) where
  -- The allocator finds memory for a request: aligned as asked, and in the address space.
  abbrev pub Gives : Request → Type 0
  Gives r =
      (s : S)
      → (a : Allocation) × (s' : S) × (allocator.allocate r s ≡ ok (a, s'))
        × (a.request ≡ r)
        × (a.ptr % r.alignment ≡ 0)
        × (a.ptr + r.size < size_mod)

  -- With an allocator that finds memory for the object and its stack, and for a stack of at least 24 bytes, less than 4 GiB and of a
  -- size that is a multiple of 16: `createFiber` succeeds. When another fiber, whose context is not in
  -- the object that the allocator gives, then switches to the new one, it begins at the trampoline, to
  -- call `OSFiber::run` with the object, on the stack that the allocator gave; and its destruction gives
  -- back exactly that stack, and then the object.
  pub create_fiber-Enters :
      (t : Layout) (trampoline run stack_size c ret : ℕ) (s later : S) (m : Machine)
      → Gives (array_request t 1)
      → Gives (stack_request stack_size)
      → stack_size % 16 ≡ 0
      → 24 ≤ stack_size
      → stack_size < 2 ^ 32
      → ((a : Allocation) (s' : S)
          → allocator.allocate (array_request t 1) s ≡ ok (a, s')
          → c ≢ context_of a.ptr)
      → (fiber : OsFiber) × (stack : Allocation) × (s' : S) × (m' : Machine) × (create_fiber
            allocator t trampoline run stack_size
            (s, m)
          ≡ ok (fiber, (s', m')))
        × (stack.request ≡ stack_request stack_size)
        × Enters trampoline stack.ptr stack_size run fiber.object.ptr m.word m'.word
            (switch_to c (context_of fiber.object.ptr) ret m').regs
        × (delete_fiber allocator t fiber later
            ≡ (allocator.free stack later >>= delete_unique allocator t fiber.object))
  unfolding create_fiber create_from_thread make_unique_n delete_fiber
  create_fiber-Enters t trampoline run stack_size c ret s later m gives gives' whole enough low
        other =
      let (a, s1, got, _, _, _) = gives s in
      let (stack, s2, got', asked, even, fits) = gives' s1 in
      let small : stack_size % 2 ^ 32 ≡ stack_size = omega arith in
      let object : UniquePtr = record { ptr = a.ptr; count = 1 } in
      let ctx = context_of a.ptr in
      let m1 : Machine = record m { context = put ctx empty_context m.context } in
      let m2 = set_target trampoline ctx stack.ptr stack_size run a.ptr m1 in
      (
        record { object = object; stack_ = some stack },
        stack,
        s2,
        m2,
        rw (got, got', small) refl,
        asked,
        set_target-Enters trampoline ctx stack.ptr stack_size run a.ptr c ret m1 m2 (other a s1 got)
            even whole enough fits refl,
        refl,
      )
