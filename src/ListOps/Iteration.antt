-- ===== src/ListOps/Iteration.antt =====
-- src/classes/List.c, the operations that call back: `map`, `filter`, `for-each`, `any` and
-- `every`, over one list or several at once.
-- `apply` is `LT_apply` of the operation's callable to an argument list, with the state of the
-- interpreter before and after. A callback may also raise, which ends the operation.
use list_talk.Common.{ℕ, zero, suc, Bool, true, false, List, [], ◌∷◌, ◌++◌, if◌then◌else◌}
use list_talk.ListOps.{Value, nil, pair, atom, Error, from_list, truthy_p}

pub data Outcome (S A : Type 0) : Type 0 where
  returns : A → S → Outcome S A
  raises : Error → S → Outcome S A

abbrev pub bind : {S A B : Type 0} → Outcome S A → (A → S → Outcome S B) → Outcome S B
bind (Outcome.returns a s) next = next a s
bind (Outcome.raises e s) next = Outcome.raises e s

-- What `list_cursors_collect_arguments` finds: the end of a list, a cursor that is no list, or the
-- arguments and the moved cursors.
pub data Collected : Type 0 where
  ended improper : Collected
  arguments : List Value → List Value → Collected

-- Its first loop: each cursor in turn is tested for `LT_NIL` and for a pair.
unfoldable pub check_cursors : List Value → Collected
check_cursors [] = Collected.arguments [] []
check_cursors (nil ∷ cursors) = Collected.ended
check_cursors (atom n ∷ cursors) = Collected.improper
check_cursors (pair a d ∷ cursors) = check_cursors cursors

-- Its second loop: the cars are the arguments, and the cursors move to the cdrs.
abbrev pub car : Value → Value
car (pair a d) = a
car nil = nil
car (atom n) = nil

abbrev pub cdr : Value → Value
cdr (pair a d) = d
cdr nil = nil
cdr (atom n) = nil

abbrev pub map_values : (Value → Value) → List Value → List Value
map_values f [] = []
map_values f (x ∷ xs) = f x ∷ map_values f xs

unfoldable pub collect_arguments : List Value → Collected
unfolding check_cursors
collect_arguments cursors = elim (check_cursors cursors) [
  | ended ↦ Collected.ended
  | improper ↦ Collected.improper
  | arguments a c ↦ Collected.arguments (map_values car cursors) (map_values cdr cursors)
]

-- The pairs of a value: a loop that moves to the cdr makes as many rounds.
unfoldable pub pairs : Value → ℕ
pairs nil = 0
pairs (atom n) = 0
pairs (pair a d) = suc (pairs d)

-- The test of `list_cursors_new`, then the loop with a round for each pair of the first list and one more.
abbrev pub with_lists :
    {S A : Type 0} → List Value → (ℕ → List Value → S → Outcome S A) → S → Outcome S A
with_lists [] loop s = Outcome.raises Error.at_least_one_list s
with_lists (v ∷ vs) loop s = loop (suc (pairs v)) (v ∷ vs) s

module _ {S : Type 0} (apply : List Value → S → Outcome S Value) where
  -- `LT_List_map_many`; `builder` holds the values so far.
  unfoldable pub map_loop : ℕ → List Value → List Value → S → Outcome S Value
  map_loop zero builder cursors s = Outcome.raises Error.out_of_rounds s
  map_loop (suc fuel) builder cursors s = elim (collect_arguments cursors) [
    | ended ↦ Outcome.returns (from_list builder) s
    | improper ↦ Outcome.raises Error.expects_proper_lists s
    | arguments args rest ↦
        bind (apply args s) (λ value. map_loop fuel (builder ++ (value ∷ [])) rest)
  ]

  unfoldable pub map_many : List Value → S → Outcome S Value
  unfolding map_loop
  map_many lists s = with_lists lists (λ fuel. map_loop fuel []) s

  -- `LT_List_filter`
  unfoldable pub filter_loop : List Value → Value → S → Outcome S Value
  filter_loop builder nil s = Outcome.returns (from_list builder) s
  filter_loop builder (atom n) s = Outcome.raises Error.expects_proper_lists s
  filter_loop builder (pair value list) s = bind (apply (value ∷ []) s) (λ result s'.
      filter_loop (if truthy_p result then builder ++ (value ∷ []) else builder) list s')

  unfoldable pub filter : Value → S → Outcome S Value
  unfolding filter_loop
  filter list s = filter_loop [] list s

  -- `LT_List_for_each_many`
  unfoldable pub for_each_loop : ℕ → List Value → S → Outcome S (Unit {0})
  for_each_loop zero cursors s = Outcome.raises Error.out_of_rounds s
  for_each_loop (suc fuel) cursors s = elim (collect_arguments cursors) [
    | ended ↦ Outcome.returns tt s
    | improper ↦ Outcome.raises Error.expects_proper_lists s
    | arguments args rest ↦ bind (apply args s) (λ value. for_each_loop fuel rest)
  ]

  unfoldable pub for_each_many : List Value → S → Outcome S (Unit {0})
  unfolding for_each_loop
  for_each_many lists s = with_lists lists for_each_loop s

  -- `LT_List_any_many` and `LT_List_every_many`
  unfoldable pub any_loop : ℕ → List Value → S → Outcome S Bool
  any_loop zero cursors s = Outcome.raises Error.out_of_rounds s
  any_loop (suc fuel) cursors s = elim (collect_arguments cursors) [
    | ended ↦ Outcome.returns false s
    | improper ↦ Outcome.raises Error.expects_proper_lists s
    | arguments args rest ↦ bind (apply args s) (λ result s'. elim (truthy_p result) [
      | true ↦ Outcome.returns true s'
      | false ↦ any_loop fuel rest s'
    ])
  ]

  unfoldable pub any_many : List Value → S → Outcome S Bool
  unfolding any_loop
  any_many lists s = with_lists lists any_loop s

  unfoldable pub every_loop : ℕ → List Value → S → Outcome S Bool
  every_loop zero cursors s = Outcome.raises Error.out_of_rounds s
  every_loop (suc fuel) cursors s = elim (collect_arguments cursors) [
    | ended ↦ Outcome.returns true s
    | improper ↦ Outcome.raises Error.expects_proper_lists s
    | arguments args rest ↦ bind (apply args s) (λ result s'. elim (truthy_p result) [
      | true ↦ every_loop fuel rest s'
      | false ↦ Outcome.returns false s'
    ])
  ]

  unfoldable pub every_many : List Value → S → Outcome S Bool
  unfolding every_loop
  every_many lists s = with_lists lists every_loop s

  -- `LT_List_map`, `LT_List_for_each`, `LT_List_any` and `LT_List_every`
  abbrev pub map : Value → S → Outcome S Value
  map list = map_many (list ∷ [])

  abbrev pub for_each : Value → S → Outcome S (Unit {0})
  for_each list = for_each_many (list ∷ [])

  abbrev pub any : Value → S → Outcome S Bool
  any list = any_many (list ∷ [])

  abbrev pub every : Value → S → Outcome S Bool
  every list = every_many (list ∷ [])
