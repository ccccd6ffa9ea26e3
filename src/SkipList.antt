-- ===== src/SkipList.antt =====
-- db/skiplist.h: the skip list, over any type of keys and any comparison of them.
pub mod Chain
pub mod Walk
pub mod Find
pub mod Search
pub mod Links
pub mod Placed
pub mod Insert
pub mod Spec
pub mod Cursor
use mini_leveldb.Base.{ℕ, zero, suc, ◌+◌, ◌-◌, ◌≡◌, Bool, true, false, not, Option, none, some}
use mathlib.Core.Option
use mini_leveldb.Base.{update, ltb, ◌==◌, if◌then◌else◌}
use mini_leveldb.Slice.{Sign, less, equal, is_equal}
use mini_leveldb.DbFormat.{is_less}
use mini_leveldb.Random.{one_in, new_random}

abbrev pub max_levels : ℕ
max_levels = 12

-- A node is named by a number, in the order in which the arena gave the nodes out; 0 is the head.
-- `next_` is read below the height of the node only.
pub record Node (K : Type 0) : Type 0 where
  pub key : K
  pub next : ℕ → Option ℕ

-- The nodes, how many there are, `max_height_`, and the seed of `rnd_`.
pub record SkipList (K : Type 0) : Type 0 where
  pub nodes : ℕ → Node K
  pub count : ℕ
  pub max_height : ℕ
  pub rnd : ℕ

abbrev pub set_next : {K : Type 0} → ℕ → ℕ → Option ℕ → (ℕ → Node K) → ℕ → Node K
set_next x n y nodes = update nodes x (record (nodes x) { next = update (nodes x).next n y })

-- The constructor: a head of the greatest height with null pointers; its key is never read.
unfoldable pub new_skip_list : {K : Type 0} → K → SkipList K
new_skip_list zero_key = record {
  nodes = λ _. record { key = zero_key; next = λ _. none };
  count = 1;
  max_height = 1;
  rnd = new_random 0xdeadbeef;
}

-- The loop of `RandomHeight`, from the number of levels that it may still add.
unfoldable pub random_height_loop : (left height seed : ℕ) → ℕ × ℕ
random_height_loop zero height seed = (seed, height)
random_height_loop (suc left) height seed =
    let (seed', more) = one_in 4 seed in
    let rest = random_height_loop left (height + 1) seed' in if more then rest else (seed', height)

-- The new seed and the height.
unfoldable pub random_height : ℕ → ℕ × ℕ
unfolding random_height_loop
random_height seed = random_height_loop (max_levels - 1) 1 seed

-- `prev[i] = head_` from the old height to the new one.
unfoldable pub raise_prev : (max_height height : ℕ) → (ℕ → ℕ) → ℕ → ℕ
raise_prev max_height height prev i =
    if ltb i max_height then prev i else if ltb i height then 0 else prev i

-- The head is no position.
unfoldable pub unless_head : Option ℕ → Option (Option ℕ)
unless_head none = none
unless_head (some node) = some (if node == 0 then none else some node)

module _ {K : Type 0} where
  -- What stands in `prev` before a search: no node of the list.
  abbrev pub no_nodes : SkipList K → ℕ → ℕ
  no_nodes list _ = list.count

  -- Every round leaves a node or a level behind.
  abbrev enough : SkipList K → ℕ
  enough list = list.count + list.max_height

  unfoldable pub find_last_loop : (fuel : ℕ) → (ℕ → Node K) → (x level : ℕ) → Option ℕ
  find_last_loop zero nodes x level = none
  find_last_loop (suc fuel) nodes x level =
      let down = find_last_loop fuel nodes x (level - 1) in
      elim ((nodes x).next level) [
        | none ↦ if level == 0 then some x else down
        | some next ↦ find_last_loop fuel nodes next level
      ]

  unfoldable pub find_last : SkipList K → Option ℕ
  unfolding find_last_loop
  find_last list = find_last_loop (enough list) list.nodes 0 (list.max_height - 1)

  -- The loop that links the new node into its levels, from the count of the levels left.
  unfoldable pub link_loop : (left i x : ℕ) → (prev : ℕ → ℕ) → (ℕ → Node K) → ℕ → Node K
  link_loop zero i x prev nodes = nodes
  link_loop (suc left) i x prev nodes =
      let nodes1 = set_next x i ((nodes (prev i)).next i) nodes in
      link_loop left (i + 1) x prev (set_next (prev i) i (some x) nodes1)

  -- What `Insert` does behind the search.
  unfoldable pub insert_behind : SkipList K → K → (ℕ → ℕ) → SkipList K
  unfolding random_height raise_prev link_loop
  insert_behind list key prev =
      let (rnd, height) = random_height list.rnd in
      let prev' = raise_prev list.max_height height prev in
      let x = list.count in
      record {
        nodes =
            link_loop height 0 x prev'
              (update list.nodes x (record { key = key; next = λ _. none }));
        count = x + 1;
        max_height = if ltb list.max_height height then height else list.max_height;
        rnd = rnd;
      }

  -- An iterator is the node that it stands at; `none` is not valid.
  unfoldable pub iterator_key : SkipList K → ℕ → K
  iterator_key list node = (list.nodes node).key

  unfoldable pub iterator_next : SkipList K → ℕ → Option ℕ
  iterator_next list node = (list.nodes node).next 0

  unfoldable pub iterator_seek_to_first : SkipList K → Option ℕ
  iterator_seek_to_first list = (list.nodes 0).next 0

  unfoldable pub iterator_seek_to_last : SkipList K → Option (Option ℕ)
  unfolding find_last unless_head
  iterator_seek_to_last list = unless_head (find_last list)

module _ {K : Type 0} (compare : K → K → Sign) where
  unfoldable pub key_is_after_node : (ℕ → Node K) → K → Option ℕ → Bool
  key_is_after_node nodes key none = false
  key_is_after_node nodes key (some n) = is_less (compare (nodes n).key key)

  -- The loop of `FindGreaterOrEqual`: the node that it returns, and `prev`, which the callers that
  -- pass a null pointer do not look at; `none` means that the fuel ran out.
  unfoldable pub find_greater_or_equal_loop :
      (fuel : ℕ) → (ℕ → Node K) → K → (x level : ℕ) → (prev : ℕ → ℕ) → Option (Option ℕ × (ℕ → ℕ))
  unfolding key_is_after_node
  find_greater_or_equal_loop zero nodes key x level prev = none
  find_greater_or_equal_loop (suc fuel) nodes key x level prev =
      let down = find_greater_or_equal_loop fuel nodes key x (level - 1) (update prev level x) in
      elim ((nodes x).next level) [
        | none ↦ if level == 0 then some (none, update prev level x) else down
        | some next ↦
            let on = find_greater_or_equal_loop fuel nodes key next level prev in
            if key_is_after_node nodes key (some next)
            then on
            else if level == 0
            then some (some next, update prev level x)
            else down
      ]

  unfoldable pub find_greater_or_equal : SkipList K → K → Option (Option ℕ × (ℕ → ℕ))
  unfolding find_greater_or_equal_loop
  find_greater_or_equal list key =
      find_greater_or_equal_loop (enough list) list.nodes key 0 (list.max_height - 1)
        (no_nodes list)

  unfoldable pub find_less_than_loop : (fuel : ℕ) → (ℕ → Node K) → K → (x level : ℕ) → Option ℕ
  find_less_than_loop zero nodes key x level = none
  find_less_than_loop (suc fuel) nodes key x level =
      let down = find_less_than_loop fuel nodes key x (level - 1) in
      elim ((nodes x).next level) [
        | none ↦ if level == 0 then some x else down
        | some next ↦
            let on = find_less_than_loop fuel nodes key next level in
            if not (is_less (compare (nodes next).key key))
            then (if level == 0 then some x else down)
            else on
      ]

  unfoldable pub find_less_than : SkipList K → K → Option ℕ
  unfolding find_less_than_loop
  find_less_than list key = find_less_than_loop (enough list) list.nodes key 0 (list.max_height - 1)

  unfoldable pub insert_found : SkipList K → K → Option (Option ℕ × (ℕ → ℕ)) → Option (SkipList K)
  unfolding insert_behind
  insert_found list key none = none
  insert_found list key (some (x, prev)) = some (insert_behind list key prev)

  unfoldable pub insert : SkipList K → K → Option (SkipList K)
  unfolding find_greater_or_equal insert_found
  insert list key = insert_found list key (find_greater_or_equal list key)

  unfoldable pub contains_found : SkipList K → K → Option (Option ℕ × (ℕ → ℕ)) → Option Bool
  contains_found list key none = none
  contains_found list key (some (none, _)) = some false
  contains_found list key (some (some x, _)) = some (is_equal (compare key (list.nodes x).key))

  unfoldable pub contains : SkipList K → K → Option Bool
  unfolding find_greater_or_equal contains_found
  contains list key = contains_found list key (find_greater_or_equal list key)

  unfoldable pub iterator_seek : SkipList K → K → Option (Option ℕ)
  unfolding find_greater_or_equal
  iterator_seek list target = Option.map (λ found. found.0) (find_greater_or_equal list target)

  unfoldable pub iterator_prev : SkipList K → ℕ → Option (Option ℕ)
  unfolding find_less_than unless_head
  iterator_prev list node = unless_head (find_less_than list (list.nodes node).key)
