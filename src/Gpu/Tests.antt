-- ===== src/Gpu/Tests.antt =====
-- Runs of the GPU's part on "aaaa" and on a table of five tokens, and the theorems at those inputs.
use gpzip.Prelude.{ℕ, ◌≤◌, ◌≡◌, refl, Option, none, some, List, [], ◌∷◌, length, All, arith}
use gpzip.Lz77.{Token, literal, back_ref, host_strict_greedy, pack_per_position}
use gpzip.Lz77.Pack.{FitsU16}
use gpzip.Lz77.Walk.{IsTable}
use gpzip.Gpu.Buffer.{pad_to_u32, words, read_byte}
use gpzip.Gpu.Bytes.{IsByte}
use gpzip.Gpu.HashHost.{Pool, match_find_batch}
use gpzip.Gpu.HashChunk.{IsChunk, NonEmpty}
use gpzip.Gpu.HashBatch.{IsPool}
use gpzip.Gpu.Orders.{in_order, in_order-Runs, in_order-RunsEach}
use gpzip.Gpu.HashTables.{Tables, match_find_batch-Tables}
use gpzip.Gpu.BruteForce
use gpzip.Gpu.Batch.{
  BatchedLz77, new, submit, Event, receive, drain, dispatch, hand_off, collect, answer, step,
  Reachable, made, submitted, stepped,
}
use gpzip.Gpu.BatchFlow.{held}
use gpzip.Gpu.BatchInv.{Answered}
use gpzip.Gpu.BatchReach.{Reachable-Answered}
use gpzip.Gpu.BatchEnds.{Inevitable, AllAnswered, Reachable-Inevitable}
use gpzip.Gpu.Walk.{walk, block_walk}
use gpzip.Gpu.WalkEqual.{block_walk-host_strict_greedy}

abbrev input : List ℕ
input = 97 ∷ 97 ∷ 97 ∷ 97 ∷ []

bytes : All IsByte input
bytes = (omega arith, (omega arith, (omega arith, (omega arith, tt))))

abbrev orders : ℕ → List ℕ × List ℕ
orders i = (in_order 128 0, in_order 128 0)

abbrev two : List (List ℕ)
two = input ∷ input ∷ []

two-IsChunk : All IsChunk two
two-IsChunk = ((bytes, omega arith), ((bytes, omega arith), tt))

two-NonEmpty : All NonEmpty two
two-NonEmpty = omega arith

-- An empty chunk in a batch is a panic.
match_find_batch-empty : match_find_batch orders [] (input ∷ ([] ∷ [])) 32768 ≡ none
unfolding match_find_batch in_order read_byte words pad_to_u32
match_find_batch-empty = refl

abbrev table : List Token
table = literal 97 ∷ back_ref 3 1 ∷ literal 97 ∷ literal 97 ∷ []

-- Both walks put out the first byte and the match.
walk-table : walk (pack_per_position table) ≡ pack_per_position (literal 97 ∷ back_ref 3 1 ∷ [])
unfolding walk pack_per_position
walk-table = refl

block_walk-table :
    block_walk (in_order 128 0, in_order 1 0) (pack_per_position table)
    ≡ pack_per_position (literal 97 ∷ back_ref 3 1 ∷ [])
unfolding block_walk in_order pack_per_position
block_walk-table = refl

-- The match finders on "aaaa".
match_find-aaaa : BruteForce.match_find (in_order 64 0) input 32768 ≡ table
unfolding BruteForce.match_find in_order read_byte words pad_to_u32
match_find-aaaa = refl

tables_of : Option (List (List Token) × Pool) → List (List Token)
tables_of none = []
tables_of (some (tables, pool)) = tables

match_find_batch-aaaa : tables_of (match_find_batch orders [] (input ∷ []) 32768) ≡ table ∷ []
unfolding match_find_batch in_order read_byte words pad_to_u32 tables_of
match_find_batch-aaaa = refl

match_find-IsTable_example : IsTable (BruteForce.match_find (in_order 64 0) input 32768) input
match_find-IsTable_example =
    BruteForce.match_find-IsTable (in_order 64 0) input 32768 bytes (omega arith)
      (in_order-Runs 64 64 (omega arith))

match_find_batch-Tables_example :
    (tables : List (List Token)) × (pool' : Pool) × (match_find_batch orders [] two 32768
      ≡ some (tables, pool'))
    × Tables two tables
    × IsPool pool'
match_find_batch-Tables_example =
    match_find_batch-Tables orders [] two 32768 (tt, omega arith) two-IsChunk two-NonEmpty
      (omega arith) (in_order-RunsEach 128 0 two (omega arith))

chosen-table : host_strict_greedy table ≡ some (literal 97 ∷ back_ref 3 1 ∷ [])
unfolding host_strict_greedy
chosen-table = refl

table-FitsU16 : All FitsU16 table
table-FitsU16 = (
  (omega arith, omega arith),
  ((omega arith, omega arith), ((omega arith, omega arith), ((omega arith, omega arith), tt))),
)

block_walk-host_strict_greedy_example :
    (chosen : List Token) × (host_strict_greedy table ≡ some chosen)
    × (walk (pack_per_position table) ≡ pack_per_position chosen)
    × (block_walk (in_order 128 0, in_order 1 0) (pack_per_position table)
        ≡ pack_per_position chosen)
block_walk-host_strict_greedy_example =
    block_walk-host_strict_greedy table (in_order 128 0, in_order 1 0) table-FitsU16 (omega arith)
      (in_order-Runs 128 128 (omega arith)) (in_order-Runs 1 1 (omega arith))

-- Two calls of `submit`, whose jobs go in one batch; the first has its answer.
abbrev after : Event → BatchedLz77 → BatchedLz77
after e s = elim (step 32768 e s) [ none ↦ s | some s' ↦ s' ]

abbrev waits : BatchedLz77
waits = submit input (submit input (new []))

waits-Reachable : Reachable 32768 [] two waits
waits-Reachable = submitted (input ∷ []) _ input (submitted [] _ input made)

abbrev batched : BatchedLz77
batched = after drain (after receive waits)

batched-Reachable : Reachable 32768 [] two batched
unfolding step
batched-Reachable = stepped two _ _ drain (stepped two _ _ receive waits-Reachable tt refl) tt refl

abbrev collected : BatchedLz77
collected = after collect (after hand_off (after (dispatch orders) batched))

collected-Reachable : Reachable 32768 [] two collected
unfolding step
collected-Reachable =
    stepped two _ _ collect
      (stepped two _ _ hand_off
        (stepped two _ _ (dispatch orders) batched-Reachable
          (in_order-RunsEach 128 0 two (omega arith)) refl)
        tt refl)
      tt refl

abbrev answered : BatchedLz77
answered = after answer collected

answered-Reachable : Reachable 32768 [] two answered
unfolding step
answered-Reachable = stepped two _ _ answer collected-Reachable tt refl

answers-first : answered.answers ≡ (0, table) ∷ []
unfolding step in_order read_byte words pad_to_u32
answers-first = refl

Reachable-Answered_example :
    Answered 0 two answered.answers
    × (length answered.pending ≤ 4)
    × (length (held answered.submitter) ≤ 16)
Reachable-Answered_example =
    Reachable-Answered 32768 [] two answered (omega arith) (tt, omega arith) two-IsChunk
      answered-Reachable

Reachable-Inevitable_example : Inevitable 32768 (AllAnswered two) waits
Reachable-Inevitable_example =
    Reachable-Inevitable 32768 [] two waits (omega arith) (tt, omega arith) two-IsChunk two-NonEmpty
      waits-Reachable
