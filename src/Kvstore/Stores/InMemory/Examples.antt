-- ===== src/Kvstore/Stores/InMemory/Examples.antt =====
-- A run of the in-memory store of pkg/kvstore/in_memory.go on a table that expires nothing by itself.
use Prim.Native.String.{String}
use gosoline.Prelude.{ℕ, ◌≡◌, refl, Bool, true, Option, some, List, eqb, string_comparable}
use gosoline.Cache.{live}
use gosoline.Cache.Examples.{base, base_laws}
use gosoline.Kvstore.Store.{Laws}
use gosoline.Kvstore.Stores.InMemory.{InMemory, in_memory_store}
use gosoline.Kvstore.Stores.InMemory.Layer.{in_memory_refines}

abbrev is_nought : ℕ → Bool
is_nought n = eqb n 0

abbrev as_text : String → Option String
as_text k = some k

abbrev as_key : String → String
as_key t = t

in_memory_refines_example :
    (l : Laws (in_memory_store (base {K = String}) is_nought 0 as_text as_key true))
    × ((s : InMemory (List (String × ℕ))) (k : String) (t : String)
        → as_text k ≡ some t
        → l.view s k ≡ live ((base {K = String}).get s.cache.base t).0)
in_memory_refines_example =
    in_memory_refines base base_laws is_nought 0 as_text as_key true (λ t. refl) (λ k j t p q. cc)
