-- ===== src/Uart/Queue.antt =====
-- What the input queue promises: a first-in first-out queue that drops its oldest character when it
-- is full.
use vibeos_fpga.Common.{ℕ, Option, none, some, List, [], ◌∷◌, ◌++◌, ◌==◌, if◌then◌else◌, length}

abbrev pub capacity : ℕ
capacity = 1023

abbrev pub drop_oldest : List ℕ → List ℕ
drop_oldest [] = []
drop_oldest (x ∷ xs) = xs

unfoldable pub push : ℕ → List ℕ → List ℕ
push c q = (if length q == capacity then drop_oldest q else q) ++ c ∷ []

unfoldable pub pop : List ℕ → Option ℕ × List ℕ
pop [] = (none, [])
pop (c ∷ q) = (some c, q)
