-- ===== src/Cache/Examples.antt =====
-- The theorems about the cache at two keys with a lifetime of ten.
use nflow_runtime.Common.{ℕ, ◌≡◌, List, [], ◌∷◌, arith}
use nflow_runtime.Cache.{get}
use nflow_runtime.Cache.History.{Call, sets, removes, cleans, after, written, live, get-written}

abbrev calls : List (Call ℕ)
calls = cleans 14 ∷ sets "a" 2 10 8 ∷ removes "b" ∷ sets "a" 1 10 3 ∷ sets "b" 5 10 0 ∷ []

get-written_example : get (after 10 calls) "a" 15 ≡ live 15 (written "a" calls)
get-written_example = get-written 10 15 calls "a" (omega arith, tt)
