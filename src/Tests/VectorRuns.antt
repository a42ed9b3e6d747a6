-- ===== src/Tests/VectorRuns.antt =====
-- Runs of a vector: include/marl/containers.hpp.
use mini_marl.Base.{ℕ, ◌≡◌, refl, [], ◌∷◌, none, some, arith, Run, ok, undefined, ◌>>=◌}
use mini_marl.Vector.{
  Vector, buffer, block, new, cells, cells_of, push_back, resize, reserve, assign, construct,
  with_cells, move_all, free, grow,
}
use mini_marl.Vector.Refine.{filled, in_buffer, in_block, Holds, new-Holds}
use mini_marl.Vector.Laws.{Leaves, push_back-Leaves, assign-undefined}
use mini_marl.Vector.Resize.{LeavesThere, resize-Leaves}

-- Three elements in a buffer for two: the count, the capacity and the memory.
abbrev three : Run (Vector ℕ)
three = push_back 5 (new 2) >>= push_back 6 >>= push_back 7

three_grown :
    (three >>= cells) ≡ ok (some 5 ∷ some 6 ∷ some 7 ∷ none ∷ none ∷ none ∷ none ∷ none ∷ [])
unfolding push_back reserve grow cells new construct with_cells move_all free
three_grown = refl

-- A vector with its elements in a block.
abbrev heap : Vector ℕ
heap = record {
  count_ = 1;
  capacity_ = 2;
  buffer_ = [];
  elements_ = block;
  allocation_ = some (some 4 ∷ none ∷ []);
}

heap-Holds : Holds heap (4 ∷ [])
unfolding cells cells_of filled
heap-Holds = record {
  spare = 1;
  Counted = refl;
  Room = refl;
  Cells = refl;
  Place = in_block (some 4 ∷ none ∷ []);
}

push_back-Leaves_example : Leaves (push_back 9 (new {T = ℕ} 0)) (9 ∷ [])
push_back-Leaves_example = push_back-Leaves 9 (new 0) [] (new-Holds 0)

resize-Leaves_example : LeavesThere heap (resize 0 2 heap) (4 ∷ 0 ∷ [])
resize-Leaves_example = resize-Leaves 0 2 heap (4 ∷ []) heap-Holds (omega arith)

abbrev other : Vector ℕ
other = record {
  count_ = 1;
  capacity_ = 1;
  buffer_ = some 8 ∷ [];
  elements_ = buffer;
  allocation_ = none;
}

other-Holds : Holds other (8 ∷ [])
unfolding cells cells_of filled
other-Holds = record { spare = 0; Counted = refl; Room = refl; Cells = refl; Place = in_buffer }

assign-undefined_example : assign other heap ≡ undefined
assign-undefined_example =
    assign-undefined heap other (4 ∷ []) [] 8 heap-Holds refl other-Holds (omega arith)
