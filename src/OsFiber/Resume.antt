-- ===== src/OsFiber/Resume.antt =====
-- A fiber goes on where it called `switchTo`, and a new one enters its function.
use mini_marl.Base.{
  ℕ, ◌+◌, ◌-◌, ◌%◌, ◌≤◌, ◌<◌, ◌≡◌, ◌≢◌, refl, ap, ◌∙◌, true, false, put, arith, ◌==◌,
}
use mini_marl.Memory.Align.{size_mod}
use mini_marl.OsFiber.{Context, Machine, switch_to, set_target}

put-same : {A : Type 0} (i : ℕ) (a : A) (f : ℕ → A) → put i a f i ≡ a
put-same i a f = let e : (i == i) ≡ true = ground arith in rw e refl

put-other : {A : Type 0} (i j : ℕ) (a : A) (f : ℕ → A) → i ≢ j → put i a f j ≡ f j
put-other i j a f h = let e : (i == j) ≡ false = ground (arith, h) in rw e refl

-- Registers that a function must keep for its caller, the stack pointer, and where execution is.
pub record Resumes (regs : Context) (ret : ℕ) (now : Context) : Type 0 where
  pub rbx : now.rbx ≡ regs.rbx
  pub rbp : now.rbp ≡ regs.rbp
  pub r12 : now.r12 ≡ regs.r12
  pub r13 : now.r13 ≡ regs.r13
  pub r14 : now.r14 ≡ regs.r14
  pub r15 : now.r15 ≡ regs.r15
  pub rsp : now.rsp ≡ regs.rsp
  pub rip : now.rip ≡ ret

-- A fiber `a` that has switched to `b`: when any other fiber `c` switches to `a`, while the context of
-- `a` is as it was left, `a` goes on behind its call, with its stack pointer and the registers that a
-- call keeps.
pub switch_to-Resumes :
    (a b c ret ret' : ℕ) (m later : Machine)
    → c ≢ a
    → 8 ≤ m.regs.rsp
    → m.regs.rsp < size_mod
    → later.context a ≡ (switch_to a b ret m).context a
    → Resumes m.regs ret (switch_to c a ret' later).regs
unfolding switch_to
switch_to-Resumes a b c ret ret' m later h low high left =
    let pushed : ℕ = (m.regs.rsp + size_mod - 8) % size_mod in
    let saved : Context = record (m.context a) {
      rbx = m.regs.rbx;
      rbp = m.regs.rbp;
      r12 = m.regs.r12;
      r13 = m.regs.r13;
      r14 = m.regs.r14;
      r15 = m.regs.r15;
      rip = put pushed ret m.word pushed;
      rsp = (pushed + 8) % size_mod;
    } in
    let now : (switch_to c a ret' later).regs ≡ saved =
      put-other c a _ later.context h ∙ left ∙ put-same a saved m.context in
    record {
      rbx = ap (λ r. r.rbx) now;
      rbp = ap (λ r. r.rbp) now;
      r12 = ap (λ r. r.r12) now;
      r13 = ap (λ r. r.r13) now;
      r14 = ap (λ r. r.r14) now;
      r15 = ap (λ r. r.r15) now;
      rsp = ap (λ r. r.rsp) now ∙ omega (arith, low, high);
      rip = ap (λ r. r.rip) now ∙ put-same pushed ret m.word;
    }

-- How a new fiber begins: at the trampoline with its two arguments, with a stack pointer inside the
-- stack that is aligned for the entry of a function. The zero stands one word above the word that
-- the trampoline would return to, and that word is not written.
pub record Enters (trampoline stack stack_size target arg : ℕ) (before after : ℕ → ℕ)
    (now : Context) : Type 0 where
  pub at_trampoline : now.rip ≡ trampoline
  pub first : now.rdi ≡ target
  pub second : now.rsi ≡ arg
  pub aligned : (now.rsp + 8) % 16 ≡ 0
  pub above : stack ≤ now.rsp
  pub below : now.rsp + 24 ≡ stack + stack_size
  pub zero_above : after (now.rsp + 8) ≡ 0
  pub not_written : after now.rsp ≡ before now.rsp

-- For a stack of at least 24 bytes, aligned to 16 and of a size that is a multiple of 16: when another
-- fiber first switches to a new fiber, while its context is as `marl_fiber_set_target` left it, the
-- fiber begins so.
pub set_target-Enters :
    (trampoline ctx stack stack_size target arg c ret : ℕ) (m later : Machine)
    → c ≢ ctx
    → stack % 16 ≡ 0
    → stack_size % 16 ≡ 0
    → 24 ≤ stack_size
    → stack + stack_size < size_mod
    → later.context ctx ≡ (set_target trampoline ctx stack stack_size target arg m).context ctx
    → Enters trampoline stack stack_size target arg m.word
        (set_target trampoline ctx stack stack_size target arg m).word
        (switch_to c ctx ret later).regs
unfolding switch_to set_target
set_target-Enters trampoline ctx stack stack_size target arg c ret m later h even whole enough fits
      left =
    let rsp : ℕ = (stack + stack_size + size_mod - 24) % size_mod in
    let zero_at : ℕ = (stack + stack_size + size_mod - 16) % size_mod in
    let made : Context = record (m.context ctx) {
      rip = trampoline;
      rdi = target;
      rsi = arg;
      rsp = rsp;
    } in
    let now : (switch_to c ctx ret later).regs ≡ made =
      put-other c ctx _ later.context h ∙ left ∙ put-same ctx made m.context in
    let at : rsp + 24 ≡ stack + stack_size = omega arith in
    let at' : zero_at ≡ rsp + 8 = omega arith in
    rw now (record {
      at_trampoline = refl;
      first = refl;
      second = refl;
      aligned = omega (arith, at);
      above = omega (arith, at);
      below = at;
      zero_above = rw (← at') (put-same zero_at 0 m.word);
      not_written = put-other zero_at rsp 0 m.word (λ e. absurd (omega (arith, e, at')));
    })
