-- ===== src/Environment.antt =====
-- src/classes/Environment.c: the scopes of names, which closures share.
-- An environment is its address in the list of all environments, in the order in which they were
-- made, and `none` is the null pointer. A `struct LT_Environment_Binding` is reached only through
-- the table of its environment: the table holds it, and a write through the pointer is a write
-- of the table. A symbol and a kind of invocation are their words.
pub mod Scopes
pub mod Growth
pub mod Bindings
pub mod Arguments
mod Tests
use list_talk.Common.{
  ℕ, zero, suc, ◌+◌, ◌%◌, ◌^◌, Bool, true, false, not, List, [], ◌∷◌, ◌++◌, Option, none, some,
  ◌==◌, if◌then◌else◌, length, get_or, set, bit_and,
}
use list_talk.ListOps.{Value, nil}
use list_talk.Hash.{InlineHash, init, at, at_put}
use list_talk.Hash.Keys.{pointer_key}

-- `struct LT_Environment_Binding`
pub record Binding : Type 0 where
  pub value : Value
  pub flags : ℕ

-- `struct LT_Environment_s`
pub record Environment : Type 0 where
  pub parent : Option ℕ
  pub bindings : InlineHash ℕ (Option Binding)
  pub frame_flags : ℕ
  pub invocation_context_kind : ℕ
  pub invocation_context_data : Value

-- The environments, and `LT__compilation_epoch`.
pub record Heap : Type 0 where
  pub environments : List Environment
  pub compilation_epoch : ℕ

abbrev pub constant_flag : ℕ
constant_flag = 0x1

-- `(binding->flags & LT_ENV_BINDING_FLAG_CONSTANT) != 0`
unfoldable pub constant_p : Binding → Bool
constant_p binding = not (bit_and binding.flags constant_flag == 0)

-- What `LT_Environment_new` makes.
abbrev pub fresh : Option ℕ → ℕ → Value → Environment
fresh parent kind context = record {
  parent = parent;
  bindings = init;
  frame_flags = 0;
  invocation_context_kind = kind;
  invocation_context_data = context;
}

-- The environment at an address.
abbrev pub environment_at : List Environment → ℕ → Environment
environment_at environments e = get_or environments e (fresh none 0 nil)

-- `LT_Environment_new`
unfoldable pub new : Option ℕ → ℕ → Value → Heap → ℕ × Heap
new parent kind context heap = (
  length heap.environments,
  record heap { environments = heap.environments ++ (fresh parent kind context ∷ []) },
)

-- `LT_PointerHash_at(&environment->bindings, symbol_key)`
abbrev pub binding_at : List Environment → ℕ → ℕ → Option Binding
binding_at environments e symbol = at none (environment_at environments e).bindings symbol

-- The binding of a symbol in an environment is written.
unfoldable pub write : List Environment → ℕ → ℕ → Binding → List Environment
write environments e symbol binding =
    let environment = environment_at environments e in
    set environments e
      (record environment { bindings = at_put environment.bindings symbol (some binding) })

-- `was_constant`
abbrev pub was_constant : Option Binding → Bool
was_constant none = false
was_constant (some binding) = constant_p binding

abbrev pub next_epoch : ℕ → ℕ
next_epoch epoch = (epoch + 1) % 2 ^ 64

-- `LT_Environment_bind`
unfoldable pub bind : ℕ → ℕ → Value → ℕ → Heap → Heap
unfolding write
bind e symbol value flags heap = record {
  environments = write heap.environments e symbol (record { value = value; flags = flags });
  compilation_epoch =
      if was_constant (binding_at heap.environments e symbol)
      then next_epoch heap.compilation_epoch
      else heap.compilation_epoch;
}

-- The loop of `LT_Environment_lookup`, from the environment it has come to.
unfoldable pub lookup_from : ℕ → List Environment → Option ℕ → ℕ → Option Binding
lookup_from zero environments cursor symbol = none
lookup_from (suc fuel) environments none symbol = none
lookup_from (suc fuel) environments (some e) symbol = elim (binding_at environments e symbol) [
  | some binding ↦ some binding
  | none ↦ lookup_from fuel environments (environment_at environments e).parent symbol
]

-- `LT_Environment_lookup`: `none` is the result 0. A round leads to an older environment, so there
-- are as many rounds as environments.
unfoldable pub lookup : Heap → ℕ → ℕ → Option Binding
unfolding lookup_from
lookup heap e symbol = lookup_from (length heap.environments) heap.environments (some e) symbol

-- The loop of `LT_Environment_set`, with its result and the environments after it.
unfoldable pub set_from : ℕ → List Environment → Option ℕ → ℕ → Value → Bool × List Environment
unfolding write
set_from zero environments cursor symbol value = (false, environments)
set_from (suc fuel) environments none symbol value = (false, environments)
set_from (suc fuel) environments (some e) symbol value = elim (binding_at environments e symbol) [
  | some binding ↦
      if constant_p binding
      then (false, environments)
      else (true, write environments e symbol (record binding { value = value }))
  | none ↦ set_from fuel environments (environment_at environments e).parent symbol value
]

-- `LT_Environment_set`
unfoldable pub set_binding : ℕ → ℕ → Value → Heap → Bool × Heap
unfolding set_from
set_binding e symbol value heap =
    let done = set_from (length heap.environments) heap.environments (some e) symbol value in
    (done.0, record heap { environments = done.1 })

-- The loop of `LT_Environment_invocation_context_of_kind`.
unfoldable pub context_from : ℕ → List Environment → Option ℕ → ℕ → Value
context_from zero environments cursor kind = nil
context_from (suc fuel) environments none kind = nil
context_from (suc fuel) environments (some e) kind =
    let environment = environment_at environments e in
    let rest = context_from fuel environments environment.parent kind in
    if environment.invocation_context_kind == kind
    then environment.invocation_context_data
    else rest

-- `LT_Environment_invocation_context_of_kind`, of a kind that is nil or an invocation context kind
unfoldable pub invocation_context_of_kind : Heap → ℕ → ℕ → Value
unfolding context_from
invocation_context_of_kind heap e kind =
    context_from (length heap.environments) heap.environments (some e) kind
