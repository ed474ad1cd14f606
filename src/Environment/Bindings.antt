-- ===== src/Environment/Bindings.antt =====
-- Writes through a chain of environments: `LT_Environment_bind` and `LT_Environment_set`
-- (src/classes/Environment.c).
use list_talk.Common.Bits.{bit_and_1}
use list_talk.Hash.{init}
use list_talk.Common.{
  ltb, ◌+◌, ◌%◌, ◌^◌, ℕ, zero, suc, ◌<◌, Bool, true, false, ◌&&◌, List, Option, none, some, ◌==◌,
  ◌≡◌, refl, ◌∙◌, ap, arith, ==_iff, ==_refl, if◌then◌else◌, length, Bool-cases, Option-cases, inl,
  inr,
}
use list_talk.ListOps.{Value}
use list_talk.Hash.Keys.{pointer_key}
use list_talk.Environment.{
  Binding, Environment, Heap, constant_p, environment_at, binding_at, write, bind, lookup_from,
  lookup, set_from, set_binding,
}
use list_talk.Environment.Scopes.{
  IsOlder, IsOlder-le, AreScopes, chain, nearest, write_at, binding_at-write, write-AreScopes,
  lookup_from-write, length-write,
}

-- The bindings of an environment after one of them is written.
abbrev pub overridden : List Environment → ℕ → ℕ → Binding → ℕ → ℕ → Option Binding
overridden environments e symbol b a q =
    if (e == a) && (symbol == q) then some b else binding_at environments a q

-- A write of one environment, as every environment sees it that has it among its ancestors.
pub record Assigned (heap : Heap) (e symbol : ℕ) (b : Binding) (after : Heap) : Type 0 where
  pub scopes : AreScopes after.environments
  pub reads :
      (a q : ℕ)
      → lookup after a q
        ≡ nearest
            (λ x. overridden heap.environments e symbol b x q)
            (chain (length heap.environments) heap.environments (some a))

write-Assigned :
    (heap : Heap) (e symbol : ℕ) (b : Binding) (epoch : ℕ)
    → AreScopes heap.environments
    → e < length heap.environments
    → Assigned heap e symbol b
        (record { environments = write heap.environments e symbol b; compilation_epoch = epoch })
unfolding lookup
write-Assigned heap e symbol b epoch h inside = record {
  scopes = write-AreScopes heap.environments e symbol b h inside;
  reads = λ a q.
      ap (λ n. lookup_from n (write heap.environments e symbol b) (some a) q)
        (length-write heap.environments e symbol b)
      ∙ lookup_from-write heap.environments e symbol b h inside (length heap.environments) (some a)
          q;
}

pub bind-Assigned :
    (heap : Heap) (e symbol flags : ℕ) (value : Value)
    → AreScopes heap.environments
    → e < length heap.environments
    → Assigned heap e symbol
        (record { value = value; flags = flags })
        (bind e symbol value flags heap)
unfolding bind
bind-Assigned heap e symbol flags value h inside =
    write-Assigned heap e symbol (record { value = value; flags = flags })
      (bind e symbol value flags heap).compilation_epoch h inside

-- An environment without its bindings.
abbrev pub unbound : Environment → Environment
unbound environment = record environment { bindings = init }

-- The compilation epoch after a binding is replaced: one more, with the wrap-around of 64 bits, where
-- there was a binding with the flag for constants.
abbrev pub EpochAfter : Option Binding → ℕ → ℕ → Type 0
EpochAfter none before after = after ≡ before
EpochAfter (some b) before after =
    after ≡ (if b.flags % 2 == 1 then (before + 1) % 2 ^ 64 else before)

-- A heap after one binding is written: what every lookup reads, every binding of every environment,
-- the environments without their bindings, and the epoch.
pub record Binds (heap : Heap) (e symbol : ℕ) (b : Binding) (after : Heap) : Type 0 where
  pub assigned : Assigned heap e symbol b after
  pub bindings :
      (a q : ℕ) → binding_at after.environments a q ≡ overridden heap.environments e symbol b a q
  pub size : length after.environments ≡ length heap.environments
  pub kept :
      (a : ℕ)
      → unbound (environment_at after.environments a) ≡ unbound (environment_at heap.environments a)
  pub epoch :
      EpochAfter
        (binding_at heap.environments e symbol)
        heap.compilation_epoch
        after.compilation_epoch

write_kept :
    (environments : List Environment) (e symbol : ℕ) (b : Binding) (a : ℕ)
    → unbound (environment_at (write environments e symbol b) a)
      ≡ unbound (environment_at environments a)
write_kept environments e symbol b a = elim (Bool-cases ((e == a) && ltb e (length environments))) [
  | inl h ↦
      let same : e ≡ a = ground arith in
      rw (write_at environments e symbol b a, h)
        (ap (λ x. unbound (environment_at environments x)) same)
  | inr h ↦ rw (write_at environments e symbol b a, h) refl
]

constant_p_flag : (b : Binding) → constant_p b ≡ (b.flags % 2 == 1)
unfolding constant_p
constant_p_flag b = rw (bit_and_1 b.flags) (ground arith)

bind_epoch :
    (heap : Heap) (e symbol flags : ℕ) (value : Value)
    → EpochAfter
        (binding_at heap.environments e symbol)
        heap.compilation_epoch
        (bind e symbol value flags heap).compilation_epoch
unfolding bind
bind_epoch heap e symbol flags value = elim (Option-cases (binding_at heap.environments e symbol)) [
  | inl k ↦ rw k refl
  | inr (b, k) ↦ rw (k, constant_p_flag b) refl
]

-- `LT_Environment_bind` changes the binding of the symbol in its environment, which every
-- environment sees whose lookup of the symbol comes there, moves the compilation epoch on exactly
-- when the binding that was there is constant, and changes nothing else.
pub bind-Binds :
    (heap : Heap) (e symbol flags : ℕ) (value : Value)
    → AreScopes heap.environments
    → e < length heap.environments
    → Binds heap e symbol (record { value = value; flags = flags }) (bind e symbol value flags heap)
unfolding bind
bind-Binds heap e symbol flags value h inside =
    let b : Binding = record { value = value; flags = flags } in
    record {
      assigned = bind-Assigned heap e symbol flags value h inside;
      bindings = λ a q. binding_at-write heap.environments e symbol b h inside a q;
      size = length-write heap.environments e symbol b;
      kept = λ a. write_kept heap.environments e symbol b a;
      epoch = bind_epoch heap e symbol flags value;
    }

module _ (environments : List Environment) (scopes : AreScopes environments) (symbol : ℕ)
    (value : Value) where
  -- What the loop of `LT_Environment_set` does in each of its cases.
  record Found (n : ℕ) (cursor : Option ℕ) (b : Binding) : Type 0 where
    owner : ℕ
    inside : owner < length environments
    there : binding_at environments owner symbol ≡ some b
    stops : set_from n environments cursor symbol value ≡ (
        if constant_p b
        then (false, environments)
        else (true, write environments owner symbol (record b { value = value })))
    sees :
        nearest
          (λ a. overridden environments owner symbol (record b { value = value }) a symbol)
          (chain n environments cursor)
        ≡ some (record b { value = value })

  Found-first :
      (n e : ℕ) (b : Binding)
      → e < length environments
      → binding_at environments e symbol ≡ some b
      → Found (suc n) (some e) b
  unfolding set_from
  Found-first n e b o k = record {
    owner = e;
    inside = o;
    there = k;
    stops = rw (k, set_from) refl;
    sees = rw (==_refl e, ==_refl symbol) refl;
  }

  Found-parent :
      (n e : ℕ) (b : Binding)
      → binding_at environments e symbol ≡ none
      → Found n (environment_at environments e).parent b
      → Found (suc n) (some e) b
  unfolding set_from
  Found-parent n e b k rest =
      let other : (rest.owner == e) ≡ false = elim (Bool-cases (rest.owner == e)) [
        | inl same ↦
            let owned : rest.owner ≡ e = (==_iff rest.owner e).0 same in
            let bound : binding_at environments e symbol ≡ some b = rw owned at rest.there in
            absurd cc
        | inr d ↦ d
      ] in
      record {
        owner = rest.owner;
        inside = rest.inside;
        there = rest.there;
        stops = rw (k, set_from) rest.stops;
        sees = rw (other, k) rest.sees;
      }

  set_from-Found :
      (n : ℕ) (cursor : Option ℕ) (b : Binding)
      → IsOlder cursor (length environments)
      → lookup_from n environments cursor symbol ≡ some b
      → Found n cursor b
  unfolding lookup_from
  set_from-Found zero cursor b o h = absurd cc
  set_from-Found (suc n) none b o h = absurd cc
  set_from-Found (suc n) (some e) b o h = elim (Option-cases (binding_at environments e symbol)) [
    | inl k ↦
        let parent = (environment_at environments e).parent in
        Found-parent n e b k (
          set_from-Found n parent b
            (IsOlder-le parent e (length environments) (scopes e o).older (omega arith))
            (rw (k, lookup_from) at h))
    | inr (b2, k) ↦
        let found : some b2 ≡ some b = rw (k, lookup_from) at h in
        let same : b2 ≡ b = cc in Found-first n e b o (rw same at k)
  ]

  set_from-none :
      (n : ℕ) (cursor : Option ℕ)
      → lookup_from n environments cursor symbol ≡ none
      → set_from n environments cursor symbol value ≡ (false, environments)
  unfolding lookup_from set_from
  set_from-none zero cursor h = refl
  set_from-none (suc n) none h = refl
  set_from-none (suc n) (some e) h = elim (Option-cases (binding_at environments e symbol)) [
    | inl k ↦
        rw (k, set_from)
          (set_from-none n (environment_at environments e).parent (rw (k, lookup_from) at h))
    | inr (b, k) ↦ let found : some b ≡ none = rw (k, lookup_from) at h in absurd cc
  ]

-- What `LT_Environment_set` is to do, from what a lookup of the symbol finds.
abbrev pub SetResult : Heap → ℕ → ℕ → Value → Option Binding → Bool → Heap → Type 0
SetResult heap e symbol value none done after = (done ≡ false) × (after ≡ heap)
SetResult heap e symbol value (some b) done after =
    if constant_p b
    then (done ≡ false) × (after ≡ heap)
    else (done ≡ true)
      × ((lookup after e symbol ≡ some (record b { value = value }))
          × ((owner : ℕ) × ((binding_at heap.environments owner symbol ≡ some b)
                × Assigned heap owner symbol (record b { value = value }) after)))

-- `LT_Environment_set` answers 0 and changes nothing for a symbol that is not bound, or whose
-- nearest binding is constant. Otherwise it answers 1 and changes the value, and not the flags, of
-- the nearest binding, in the environment that has it.
pub set_binding-SetResult :
    (heap : Heap) (e symbol : ℕ) (value : Value)
    → AreScopes heap.environments
    → e < length heap.environments
    → SetResult heap e symbol value
        (lookup heap e symbol)
        (set_binding e symbol value heap).0
        (set_binding e symbol value heap).1
unfolding set_binding lookup
set_binding-SetResult heap e symbol value h inside =
    let environments = heap.environments in
    let n = length environments in
    elim (Option-cases (lookup_from n environments (some e) symbol)) [
      | inl k ↦
          let stops = set_from-none environments h symbol value n (some e) k in
          rw (k, stops) (refl, refl)
      | inr (b, k) ↦
          let found = set_from-Found environments h symbol value n (some e) b inside k in
          elim (Bool-cases (constant_p b)) [
            | inl c ↦
                let stops : set_from n environments (some e) symbol value ≡ (false, environments) =
                  rw c at found.stops in
                rw (k, stops, c) (refl, refl)
            | inr c ↦
                let stops : set_from n environments (some e) symbol value
                    ≡ (true, write environments found.owner symbol (record b { value = value })) =
                  rw c at found.stops in
                let assigned =
                  write-Assigned heap found.owner symbol (record b { value = value })
                    heap.compilation_epoch h found.inside in
                rw (k, stops, c)
                  (
                    refl,
                    (assigned.reads e symbol ∙ found.sees, (found.owner, (found.there, assigned))),
                  )
          ]
    ]
