-- ===== src/BtreePage/Internal.antt =====
-- BTreeInternalPage: a header of 11 bytes, a child of 4 bytes, then pairs of a key (8 bytes) and a
-- child. As in the leaf, the indices of the loops are converted to uint16_t without a change while
-- the node has at most INTERNAL_MAX_KEYS keys.
pub mod Pairs
pub mod Route
pub mod InsertAfter
pub mod Search
use persist_x.Base.{
  ℕ, zero, suc, ◌+◌, ◌-◌, ◌*◌, ◌/◌, ◌%◌, ◌^◌, Bool, true, false, not, ltb, leb, ◌==◌, if◌then◌else◌,
}
use persist_x.Types.{invalid_page_id}
use persist_x.Bytes.{rd, wr}
use persist_x.Page.{Page, clear}
use persist_x.BtreePage.Keys.{less_key}

abbrev pub internal_max_keys : ℕ
internal_max_keys = 340

unfoldable pub init : Page → ℕ → Page
init p page_id = wr 4 (wr 2 (wr 1 (wr 4 (clear p) 0 page_id) 4 0) 5 0) 7 invalid_page_id

-- ─── header ───

unfoldable pub get_page_id : Page → ℕ
get_page_id p = rd 4 p 0

unfoldable pub get_node_type : Page → ℕ
get_node_type p = rd 1 p 4

unfoldable pub get_num_keys : Page → ℕ
get_num_keys p = rd 2 p 5

unfoldable pub get_parent_id : Page → ℕ
get_parent_id p = rd 4 p 7

unfoldable pub set_num_keys : Page → ℕ → Page
set_num_keys p n = wr 2 p 5 n

unfoldable pub set_parent_id : Page → ℕ → Page
set_parent_id p pid = wr 4 p 7 pid

-- ─── keys and children ───

abbrev pub child_offset : ℕ → ℕ
child_offset index = 11 + index * 12

abbrev pub key_offset : ℕ → ℕ
key_offset index = 11 + index * 12 + 4

unfoldable pub get_key_at : Page → ℕ → ℕ
get_key_at p index = rd 8 p (key_offset index)

unfoldable pub get_child_at : Page → ℕ → ℕ
get_child_at p index = rd 4 p (child_offset index)

unfoldable pub set_key_at : Page → ℕ → ℕ → Page
set_key_at p index key = wr 8 p (key_offset index) key

unfoldable pub set_child_at : Page → ℕ → ℕ → Page
set_child_at p index pid = wr 4 p (child_offset index) pid

-- ─── operations ───

-- The scan of lookup_child from `i` on, with `k` keys left.
unfoldable pub scan : ℕ → Page → ℕ → ℕ → ℕ
scan zero p key i = i
scan (suc k) p key i = elim (less_key key (get_key_at p i)) [
  | true ↦ i
  | false ↦ scan k p key (i + 1)
]

unfoldable pub lookup_child : Page → ℕ → ℕ
lookup_child p key = get_child_at p (scan (get_num_keys p) p key 0)

-- The search of insert_after from `i` on, with `k` children left.
unfoldable pub find_child : ℕ → Page → ℕ → ℕ → ℕ
find_child zero p old_child i = i
find_child (suc k) p old_child i = elim (get_child_at p i == old_child) [
  | true ↦ i
  | false ↦ find_child k p old_child (i + 1)
]

-- One round of the shifting loop: a key and the child behind it move one place up.
unfoldable pub move_pair : Page → ℕ → Page
move_pair p j =
    let q = set_key_at p (j + 1) (get_key_at p j) in set_child_at q (j + 2) (get_child_at q (j + 1))

-- `k` pairs from `i` on move up, the last one first.
unfoldable pub shift_pairs : Page → ℕ → ℕ → Page
shift_pairs p i zero = p
shift_pairs p i (suc k) = shift_pairs (move_pair p (i + k)) i k

unfoldable pub insert_after : Page → ℕ → ℕ → ℕ → Page × Bool
insert_after p old_child key new_child =
    let n = get_num_keys p in
    if leb internal_max_keys n
    then (p, false)
    else (let i = find_child (n + 1) p old_child 0 in
        let q = shift_pairs p i (n - i) in
        (set_num_keys (set_child_at (set_key_at q i key) (i + 1) new_child) (n + 1), true))
