-- ===== src/Finally.antt =====
-- `FinallyImpl` of include/marl/finally.hpp, which `defer` of include/marl/defer.hpp makes. A function is
-- named by a number. A function that was moved from is called like any other.
pub mod Laws
use mini_marl.Base.{
  ℕ, ◌≡◌, Bool, true, false, List, [], ◌∷◌, Option, none, some, pick, if◌then◌else◌,
}

pub record FinallyImpl : Type 0 where
  pub func_ : ℕ
  pub valid_ : Bool

-- The objects of a program, and the calls of their functions, the newest first.
pub record Scopes : Type 0 where
  pub objects : List FinallyImpl
  pub calls : List ℕ

abbrev pub no_scopes : Scopes
no_scopes = record { objects = []; calls = [] }

-- `make_finally(f)`
unfoldable pub make_finally : ℕ → Scopes → Scopes
make_finally f s = record s { objects = record { func_ = f; valid_ = true } ∷ s.objects }

-- `FinallyImpl(FinallyImpl &&other)`: the new object, and `other`.
unfoldable pub move_from : FinallyImpl → List FinallyImpl → Scopes → Scopes
move_from other rest s = record s {
  objects = record { func_ = other.func_; valid_ = true } ∷ record other { valid_ = false } ∷ rest;
}

-- `~FinallyImpl`
unfoldable pub end_scope : FinallyImpl → List FinallyImpl → Scopes → Scopes
end_scope o rest s = record s {
  objects = rest;
  calls = if o.valid_ then o.func_ ∷ s.calls else s.calls;
}

-- The states of a program that has made objects for the functions `made`, and has moved from objects
-- of the functions `again` that had been moved from before.
pub data Reached : List ℕ → List ℕ → Scopes → Type 0 where
  started : Reached [] [] no_scopes
  makes :
      {made again : List ℕ} {s : Scopes} (f : ℕ)
      → Reached made again s
      → Reached (f ∷ made) again (make_finally f s)
  moves :
      {made again : List ℕ} {s : Scopes} (i : ℕ) (o : FinallyImpl) (rest : List FinallyImpl)
      → Reached made again s
      → pick i s.objects ≡ some (o, rest)
      → Reached made (if o.valid_ then again else o.func_ ∷ again) (move_from o rest s)
  ends :
      {made again : List ℕ} {s : Scopes} (i : ℕ) (o : FinallyImpl) (rest : List FinallyImpl)
      → Reached made again s
      → pick i s.objects ≡ some (o, rest)
      → Reached made again (end_scope o rest s)
