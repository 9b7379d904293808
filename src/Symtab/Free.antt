-- ===== src/Symtab/Free.antt =====
-- `symtab_free` and `free_scope` of src/middleend/symtab.c, as the objects that they release, in
-- their order. A hash table has as many chains as its capacity.
use scorivm.Base.{ℕ, ◌+◌, Option, none, List, [], ◌∷◌, ◌++◌}
use scorivm.Symtab.{Scope, Symtab}

pub data Freed : Type 0 where
  freed_symbol freed_table freed_scope : ℕ → Freed

pub free_chain : List ℕ → List Freed
free_chain [] = []
free_chain (s ∷ next) = freed_symbol s ∷ free_chain next

pub free_chains : List (List ℕ) → List Freed
free_chains [] = []
free_chains (c ∷ cs) = free_chain c ++ free_chains cs

pub free_scope : ℕ → Scope → List Freed
free_scope i sc = free_chains sc.hash_table ++ freed_table i ∷ freed_scope i ∷ []

-- Along `next_in_all` the newest scope comes first.
pub free_from : ℕ → List Scope → List Freed
free_from i [] = []
free_from i (sc ∷ newer) = free_from (i + 1) newer ++ free_scope i sc

-- What is released, and that no scope is left.
pub symtab_free : Symtab → List Freed × Option ℕ
symtab_free st = (free_from 0 st.scopes, none)
