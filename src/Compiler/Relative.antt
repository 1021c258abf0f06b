-- ===== src/Compiler/Relative.antt =====
-- attic/gstaging.c: the relative addresses of calls and jumps.
use asmc.Prelude.{ℕ, ◌+◌, ◌≡◌, refl, arith}
use asmc.Run.{done}
use asmc.Globals.{Globals, word, sub_word}
use asmc.Compiler.Expr.{compute_rel}

-- `compute_rel` changes nothing, and its result leads from behind the four bytes that hold it to the
-- address, modulo 2 ^ 32.
pub compute_rel-target :
    (addr : ℕ) (g : Globals)
    → (rel : ℕ) × (compute_rel addr g ≡ done rel g) × (word (g.current_loc + 4 + rel) ≡ word addr)
unfolding compute_rel
compute_rel-target addr g = (sub_word (sub_word addr g.current_loc) 4, refl, omega arith)
