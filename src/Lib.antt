-- ===== src/Lib.antt =====
-- ListTalk is a Lisp runtime in C with Smalltalk-like classes. This library models parts of the
-- runtime: src/vm/utils.c, the helpers under every other part, the text and container classes that
-- stand on them, and the list operations that the evaluator's primitives call.
--
-- The parts, and the files that model them:
--
-- Hash: the chained hash table `LT_InlineHash` of src/vm/utils.c, under the environments, the
-- packages and the dictionaries. The table is a record of its chains, its mask and its count; the
-- pointer and the string tables are one model with the key's type as an instance argument, `Key`
-- (Hash/Keys), which also has `LT_pointer_hash` and `LT_fnv_hash`. Hash/Refine relates the table
-- to the map from keys to values. The table's lock is held through each operation and is left out.
--
-- BigInteger: src/classes/BigInteger.c, integers of any size over fixnums of 56 bits. A magnitude is
-- the list of its 32-bit limbs, the lowest first, so a count with a pointer is one list, and an
-- array that a loop fills is the list of what it writes. BigInteger/Magnitude says what number limbs
-- stand for, and BigInteger/Canonical what `make_integer_from_limbs` keeps: fixnums in range, and no
-- zero limbs at the high end. `none` is an `LT_error`. The greatest common divisor, the decimal text,
-- the hash and the conversion to `double` are not modelled.
--
-- Environment: src/classes/Environment.c, over the hash table of Hash and the values of ListOps. The
-- heap is the list of all environments, and an environment is its address, so two closures that
-- share one see each other's writes. A parent is older than its children, so a walk along the parents
-- has as many rounds as there are environments. The type error of
-- `LT_Environment_invocation_context_of_kind` is left out.
--
-- Closure: src/vm/eval.c, `bind_closure_parameters` and `apply_closure`, over the heap of
-- Environment, and src/classes/Closure.c, the compiled body of a closure, which is compiled anew when
-- its epoch is not the compilation epoch (Closure/Compile). A closure is its index in the list of all
-- closures, which is part of the state. `eval_form` and `LT_compiler_fold_expression` are parameters
-- that take and give the state, and may raise; symbols are a record of operations, `Symbols`. The jump
-- of a tail call is left out.
--
-- Precedence: `make_precedence_list` of src/classes/Class.c, the order in which the classes of an
-- object are searched for a method. Classes are numbers below `total`, and a function gives the
-- superclasses of each. The arrays that one index runs over are one list of rows, and the matrix of
-- edges is the list of the pairs in it, so a class stands for its index. `none` is an `LT_error`. The
-- count and the discovery have `total` rounds of fuel, and each round takes a class not seen before.
-- Precedence/Methods is the lookup of a method along such a list, here and in src/vm/eval.c; the
-- dictionaries of methods, which src/classes/IdentityDictionary.c lays out as hash tables, are those of
-- Hash, and the cache of a class is one of them with its epoch.
--
-- MessageQueue: src/classes/MessageQueue.c, a bounded blocking queue over a circular array. An
-- operation runs under the queue's mutex, so a sequence of calls by several threads is a list of
-- calls; a call that would wait answers so and changes nothing.
--
-- Utf8: src/utils/utf8.c, the validation, decoding, stepping and encoding under the strings.
--
-- ListOps: src/classes/List.c, from `LT_List_proper_p` to `LT_List_plistToAlist`. A list is the
-- finite value that its pairs make. A callback is `LT_apply` with the callable, a parameter that
-- takes and gives the state of the interpreter, and may raise. `LT_ListBuilder` of src/vm/utils.c
-- is the list of the values appended so far.
--
-- Hex: src/utils/hex.c, hexadecimal text of bytes and back, with `none` for an `LT_error`.
--
-- Quasiquote: src/vm/quasiquote.c, the expansion of templates, over the values, the errors and the
-- outcomes of ListOps. The evaluator is a parameter, and so is the test for the three symbols.
--
-- ThrowCatch: src/vm/throw_catch.c and the macros of ListTalk/vm/throw_catch.h. The macros and the
-- code they stand around are a small language, and a machine runs it: `setjmp` saves the list of what
-- the C functions have left to do, and `longjmp` takes it up again. Tags are compared as numbers.
-- ThrowCatch/Denotation gives the same code a meaning by its structure. The stack trace and what
-- `LT_error` does behind an uncaught throw are left out.
--
-- StringBuilder: `LT_StringBuilder` of src/vm/utils.c, a growing buffer that stays a C string. A
-- block of fresh memory is a parameter: it has the size that is asked for, and any bytes.
--
-- Numbers are natural numbers with the wrap-around of the C types written out where it can happen.
-- A C array is a list. Loops over arrays and lists are structural recursion; a loop with fuel has
-- a round for each pair of the first list (ListOps), for each byte that is left (Utf8), for each
-- 12 bits of a pointer (Hash/Keys), for each byte that a block has to hold (StringBuilder), for
-- each value to sort (ListOps/Sort), for each bit of a
-- limb (BigInteger/Divide) or for each step of a walk over a template, by its weight
-- (Quasiquote).
--
-- Not modelled: allocation and garbage collection, locks and threads as such, output and error
-- texts, the reader, the rest of the evaluator, of the class system and of the numeric tower, and the modules that
-- wrap other libraries.
pub mod BigInteger
pub mod Closure
pub mod Common
pub mod Environment
pub mod Hash
pub mod Hex
pub mod ListOps
pub mod MessageQueue
pub mod Precedence
pub mod Quasiquote
pub mod StringBuilder
pub mod ThrowCatch
pub mod Utf8
