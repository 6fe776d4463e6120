-- ===== src/Connection/Contexts.antt =====
-- The contexts of src/network/net/Connection.cpp.
use tmms.Common.{ℕ, ◌≡◌, refl, Option, none, List, [], ◌∷◌, arith, ◌==◌, if◌then◌else◌}
use tmms.Connection.{
  Connection, assign, find, set_context, get_context, clear_context, clear_contexts,
}

find-assign :
    (j k : ℕ) (context : Option ℕ) (m : List (ℕ × Option ℕ))
    → find j (assign k context m) ≡ (if k == j then context else find j m)
unfolding find assign
find-assign j k context [] = refl
find-assign j k context ((i, c) ∷ rest) = ground (arith, find-assign j k context rest)

-- What `GetContext` gives after each way to change the contexts, which leave the other types alone.
pub get_context_lem :
    (j k : ℕ) (context : Option ℕ) (c : Connection)
    → (get_context j (set_context k context c) ≡ (if k == j then context else get_context j c))
      × (get_context j (clear_context k c) ≡ (if k == j then none else get_context j c))
      × (get_context j (clear_contexts c) ≡ none)
unfolding get_context set_context clear_context clear_contexts find
get_context_lem j k context c =
    (find-assign j k context c.contexts, find-assign j k none c.contexts, refl)
