-- ===== src/Replacer.antt =====
-- include/replacer.hpp and src/replacer.cpp: the frames that may be evicted, the one used last at
-- the front. A node of the std::list is a handle, which stands for its address, and the frame in
-- it; an iterator is a handle, and frame_map_ goes from frames to iterators.
pub mod Nodes
pub mod Lru
pub mod Held
mod Tests
use persist_x.Base.{
  ℕ, ◌+◌, Bool, true, false, List, [], ◌∷◌, Option, none, some, ◌==◌, if◌then◌else◌, length, update,
}

abbrev pub Node : Type 0
Node = ℕ × ℕ

pub record Replacer : Type 0 where
  pub frame_count : ℕ
  pub frame_list : List Node
  pub frame_map : ℕ → Option ℕ
  pub next_node : ℕ

unfoldable pub new_replacer : ℕ → Replacer
new_replacer num_pages = record {
  frame_count = num_pages;
  frame_list = [];
  frame_map = λ _. none;
  next_node = 0;
}

-- `frame_list_.back()`, if there is one.
unfoldable pub back : List Node → Option ℕ
back [] = none
back ((h, f) ∷ []) = some f
back (n ∷ m ∷ ns) = back (m ∷ ns)

unfoldable pub pop_back : List Node → List Node
pop_back [] = []
pop_back (n ∷ []) = []
pop_back (n ∷ m ∷ ns) = n ∷ pop_back (m ∷ ns)

-- `frame_list_.erase(it)`
unfoldable pub erase : ℕ → List Node → List Node
erase it [] = []
erase it (n ∷ ns) = let rest = erase it ns in if n.0 == it then ns else n ∷ rest

-- `frame_list_.push_front(frame_id); frame_map_[frame_id] = frame_list_.begin();`
unfoldable pub push_front : Replacer → ℕ → Replacer
push_front r frame_id = record r {
  frame_list = (r.next_node, frame_id) ∷ r.frame_list;
  frame_map = update r.frame_map frame_id (some r.next_node);
  next_node = r.next_node + 1;
}

unfoldable pub evict : Replacer → Option ℕ × Replacer
evict r = elim (back r.frame_list) [
  | none ↦ (none, r)
  | some frame_id ↦ (
    some frame_id,
    record r { frame_list = pop_back r.frame_list; frame_map = update r.frame_map frame_id none },
  )
]

unfoldable pub record_access : Replacer → ℕ → Replacer
record_access r frame_id = elim (r.frame_map frame_id) [
  | none ↦ r
  | some it ↦ push_front (record r { frame_list = erase it r.frame_list }) frame_id
]

unfoldable pub remove_from_replacer : Replacer → ℕ → Replacer
remove_from_replacer r frame_id = elim (r.frame_map frame_id) [
  | none ↦ r
  | some it ↦ record r {
    frame_list = erase it r.frame_list;
    frame_map = update r.frame_map frame_id none;
  }
]

unfoldable pub set_evictable : Replacer → ℕ → Bool → Replacer
set_evictable r frame_id true = elim (r.frame_map frame_id) [
  | none ↦ push_front r frame_id
  | some it ↦ r
]
set_evictable r frame_id false = elim (r.frame_map frame_id) [
  | none ↦ r
  | some it ↦ record r {
    frame_list = erase it r.frame_list;
    frame_map = update r.frame_map frame_id none;
  }
]

unfoldable pub size : Replacer → ℕ
size r = length r.frame_list
