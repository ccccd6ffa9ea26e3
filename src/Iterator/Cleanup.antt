-- ===== src/Iterator/Cleanup.antt =====
-- Which cleanup functions an iterator runs, and in which order.
use mini_leveldb.Base.{
  ◌≡◌, ◌<◌, refl, sym, ap, ◌∙◌, arith, List, [], ◌∷◌, ◌++◌, append_assoc, append-nil, false, ◌==◌,
}
use mini_leveldb.Iterator.{
  CleanupNode, Cleanups, is_empty, new_iterator, register_cleanup, run_nodes, destroy,
}

-- Registering nodes one after the other.
unfoldable pub register_all : List CleanupNode → Cleanups → Cleanups
unfolding register_cleanup
register_all [] c = c
register_all (node ∷ nodes) c = register_all nodes (register_cleanup node c)

-- The last one first.
unfoldable pub latest_first : List CleanupNode → List CleanupNode
latest_first [] = []
latest_first (node ∷ nodes) = latest_first nodes ++ (node ∷ [])

abbrev pub IsCall : CleanupNode → Type 0
IsCall node = 0 < node.function

run_nodes-all : (nodes : List CleanupNode) → run_nodes nodes ≡ nodes
unfolding run_nodes
run_nodes-all [] = refl
run_nodes-all (node ∷ nodes) = ap (λ t. node ∷ t) (run_nodes-all nodes)

register_behind :
    (nodes : List CleanupNode) (head : CleanupNode) (later : List CleanupNode)
    → IsCall head
    → register_all nodes (record { cleanup_head = head; next = later })
      ≡ record { cleanup_head = head; next = latest_first nodes ++ later }
unfolding register_all latest_first register_cleanup is_empty
register_behind [] head later h = refl
register_behind (node ∷ nodes) head later h =
    let used : (head.function == 0) ≡ false = ground (arith, h) in
    rw used (
      register_behind nodes head (node ∷ later) h
      ∙ ap (λ t. record { cleanup_head = head; next = t })
          (sym (append_assoc (latest_first nodes) (node ∷ []) later)))

-- An iterator on which cleanup functions were registered runs each of them once when it is destroyed:
-- the first that was registered, and then the others from the last to the second; the functions are
-- not null.
pub destroy-register_all :
    (first : CleanupNode) (others : List CleanupNode)
    → IsCall first
    → destroy (register_all (first ∷ others) new_iterator) ≡ first ∷ latest_first others
unfolding register_all new_iterator destroy is_empty register_cleanup
destroy-register_all first others h =
    let used : (first.function == 0) ≡ false = ground (arith, h) in
    rw (register_behind others first [] h, used)
      (ap (λ t. first ∷ t)
        (run_nodes-all (latest_first others ++ []) ∙ append-nil (latest_first others)))
