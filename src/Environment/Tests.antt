-- ===== src/Environment/Tests.antt =====
-- Tests of the environments (src/classes/Environment.c).
use list_talk.Common.{
  List, [], ◌∷◌, none, some, ◌==◌, ◌≡◌, refl, ◌∙◌, ap, if◌then◌else◌, arith, length,
}
use list_talk.ListOps.{nil, atom}
use list_talk.Hash.Keys.{pointer_key}
use list_talk.Environment.{
  Environment, Heap, fresh, write, new, bind, lookup, lookup_from, set_binding, context_from,
  invocation_context_of_kind,
}
use list_talk.Environment.Scopes.{AreScopes, or_else, binding_at-init}
use list_talk.Environment.Growth.{Halts, lookup-Halts, new-lookup, grown-AreScopes}
use list_talk.Environment.Bindings.{
  Binds, bind-Binds, bind-Assigned, SetResult, set_binding-SetResult,
}

abbrev no_heap : Heap
no_heap = record { environments = []; compilation_epoch = 0 }

no_heap_AreScopes : AreScopes []
no_heap_AreScopes e h = absurd (omega arith)

abbrev outer : List Environment
outer = fresh none 0 nil ∷ []

abbrev outer_AreScopes : AreScopes outer
outer_AreScopes = grown-AreScopes [] no_heap_AreScopes none 0 nil tt

-- An environment, and one inside it.
abbrev two : Heap
two = record {
  environments = fresh none 0 nil ∷ fresh (some 0) 3 (atom 5) ∷ [];
  compilation_epoch = 0;
}

abbrev two_AreScopes : AreScopes two.environments
two_AreScopes = grown-AreScopes outer outer_AreScopes (some 0) 3 (atom 5) (omega arith)

-- The outer environment has a binding.
abbrev bound : Heap
bound = bind 0 16 (atom 7) 0 two

abbrev bound_AreScopes : AreScopes bound.environments
bound_AreScopes = (bind-Assigned two 0 16 0 (atom 7) two_AreScopes (omega arith)).scopes

bound_length : length bound.environments ≡ 2
unfolding bind write
bound_length = refl

bind-Binds_example :
    Binds two 0 16 (record { value = atom 7; flags = 0 }) (bind 0 16 (atom 7) 0 two)
bind-Binds_example = bind-Binds two 0 16 0 (atom 7) two_AreScopes (omega arith)

seen_inside : lookup bound 1 16 ≡ some (record { value = atom 7; flags = 0 })
seen_inside =
    (bind-Assigned two 0 16 0 (atom 7) two_AreScopes (omega arith)).reads 1 16
    ∙ ap (λ b. or_else b (some (record { value = atom 7; flags = 0 }))) (binding_at-init 16)

set_binding-SetResult_example :
    SetResult bound 1 16
      (atom 9)
      (lookup bound 1 16)
      (set_binding 1 16 (atom 9) bound).0
      (set_binding 1 16 (atom 9) bound).1
set_binding-SetResult_example =
    set_binding-SetResult bound 1 16 (atom 9) bound_AreScopes (omega (arith, bound_length))

lookup-Halts_example : Halts bound.environments 16 (some 1) (lookup bound 1 16)
lookup-Halts_example = lookup-Halts bound 1 16 bound_AreScopes (omega (arith, bound_length))

new-lookup_example :
    AreScopes (new (some 1) 4 nil two).1.environments
    × ((lookup (new (some 1) 4 nil two).1 (new (some 1) 4 nil two).0 16
          ≡ lookup_from 2 two.environments (some 1) 16)
        × ((invocation_context_of_kind (new (some 1) 4 nil two).1 (new (some 1) 4 nil two).0 3
              ≡ (if 4 == 3 then nil else context_from 2 two.environments (some 1) 3))
            × (lookup (new (some 1) 4 nil two).1 0 16 ≡ lookup two 0 16)))
new-lookup_example = new-lookup two (some 1) 4 nil 0 16 3 two_AreScopes (omega arith) (omega arith)
