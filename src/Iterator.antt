-- ===== src/Iterator.antt =====
-- include/iterator.h and table/iterator.cc: the cleanup functions of an iterator, and the empty iterator.
pub mod Cleanup
use mini_leveldb.Base.{ℕ, Bool, false, List, [], ◌∷◌, ◌==◌, if◌then◌else◌}
use mini_leveldb.Slice.{Slice}
use mini_leveldb.Status.{Status, ok_status}

-- A function and its arguments are addresses, zero for the null pointer. The `next` pointers are a list.
pub record CleanupNode : Type 0 where
  pub function : ℕ
  pub arg1 : ℕ
  pub arg2 : ℕ

unfoldable pub is_empty : CleanupNode → Bool
is_empty node = node.function == 0

-- The head node, which stands in the iterator, and the nodes behind it.
pub record Cleanups : Type 0 where
  pub cleanup_head : CleanupNode
  pub next : List CleanupNode

-- The arguments of the head are not set; they are not read before they are.
unfoldable pub new_iterator : Cleanups
new_iterator = record { cleanup_head = record { function = 0; arg1 = 0; arg2 = 0 }; next = [] }

unfoldable pub register_cleanup : CleanupNode → Cleanups → Cleanups
unfolding is_empty
register_cleanup node c =
    if is_empty c.cleanup_head
    then record c { cleanup_head = node }
    else record c { next = node ∷ c.next }

-- The loop of the destructor: the calls that it makes, in their order.
unfoldable pub run_nodes : List CleanupNode → List CleanupNode
run_nodes [] = []
run_nodes (node ∷ rest) = node ∷ run_nodes rest

-- `~Iterator`: the calls that it makes.
unfoldable pub destroy : Cleanups → List CleanupNode
unfolding is_empty run_nodes
destroy c = if is_empty c.cleanup_head then [] else c.cleanup_head ∷ run_nodes c.next

-- `EmptyIterator`: it keeps its status, and is never valid.
pub record EmptyIterator : Type 0 where
  pub status : Status

unfoldable pub valid : EmptyIterator → Bool
valid i = false

unfoldable pub seek : Slice → EmptyIterator → EmptyIterator
seek target i = i

unfoldable pub new_empty_iterator : EmptyIterator
new_empty_iterator = record { status = ok_status }

unfoldable pub new_error_iterator : Status → EmptyIterator
new_error_iterator s = record { status = s }
