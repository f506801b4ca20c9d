-- ===== src/BtreePage/Leaf.antt =====
-- BTreeLeafPage: a header of 15 bytes, then entries of 14 bytes in the order of their keys. An index
-- is a uint16_t; in the loops it stays below the number of keys, so its conversions change nothing.
pub mod Search
pub mod Entries
pub mod Valid
pub mod Insert
pub mod Lookup
pub mod Map
pub mod Remove
pub mod Forget
use persist_x.Base.{
  ℕ, zero, suc, ◌+◌, ◌-◌, ◌*◌, ◌/◌, ◌%◌, ◌^◌, Bool, true, false, not, ◌&&◌, ◌||◌, ltb, leb, ◌==◌,
  if◌then◌else◌,
}
use persist_x.Types.{Rid, invalid_rid, invalid_page_id}
use persist_x.Bytes.{rd, wr}
use persist_x.Page.{Page, clear}
use persist_x.BtreePage.Keys.{less_key}

abbrev pub leaf_max_entries : ℕ
leaf_max_entries = 291

unfoldable pub init : Page → ℕ → Page
init p page_id =
    wr 4 (wr 4 (wr 2 (wr 1 (wr 4 (clear p) 0 page_id) 4 1) 5 0) 7 invalid_page_id) 11
      invalid_page_id

-- ─── header ───

unfoldable pub get_page_id : Page → ℕ
get_page_id p = rd 4 p 0

unfoldable pub get_node_type : Page → ℕ
get_node_type p = rd 1 p 4

unfoldable pub get_num_keys : Page → ℕ
get_num_keys p = rd 2 p 5

unfoldable pub get_parent_id : Page → ℕ
get_parent_id p = rd 4 p 7

unfoldable pub get_next_leaf_id : Page → ℕ
get_next_leaf_id p = rd 4 p 11

unfoldable pub set_num_keys : Page → ℕ → Page
set_num_keys p n = wr 2 p 5 n

unfoldable pub set_parent_id : Page → ℕ → Page
set_parent_id p pid = wr 4 p 7 pid

unfoldable pub set_next_leaf_id : Page → ℕ → Page
set_next_leaf_id p nid = wr 4 p 11 nid

-- ─── entries ───

abbrev pub entry_offset : ℕ → ℕ
entry_offset index = 15 + index * 14

unfoldable pub get_key_at : Page → ℕ → ℕ
get_key_at p index = rd 8 p (entry_offset index)

unfoldable pub get_rid_at : Page → ℕ → Rid
get_rid_at p index = record {
  page_id = rd 4 p (entry_offset index + 8);
  slot_id = rd 2 p (entry_offset index + 12);
}

unfoldable pub set_key_at : Page → ℕ → ℕ → Page
set_key_at p index key = wr 8 p (entry_offset index) key

unfoldable pub set_rid_at : Page → ℕ → Rid → Page
set_rid_at p index rid =
    wr 2 (wr 4 p (entry_offset index + 8) rid.page_id) (entry_offset index + 12) rid.slot_id

-- ─── operations ───

-- The loop of key_index, on fuel: `n` rounds.
unfoldable pub search : ℕ → Page → ℕ → ℕ → ℕ → ℕ
search zero p key lo hi = lo
search (suc n) p key lo hi = elim (ltb lo hi) [
  | false ↦ lo
  | true ↦
      let mid = (lo + (hi - lo) / 2) % 2 ^ 16 in
      elim (less_key (get_key_at p mid) key) [
        | true ↦ search n p key ((mid + 1) % 2 ^ 16) hi
        | false ↦ search n p key lo mid
      ]
]

unfoldable pub key_index : Page → ℕ → ℕ
key_index p key = search (get_num_keys p) p key 0 (get_num_keys p)

-- One round of a shifting loop: an entry is copied over another.
unfoldable pub copy_entry : Page → ℕ → ℕ → Page
copy_entry p source target =
    let q = set_key_at p target (get_key_at p source) in set_rid_at q target (get_rid_at q source)

-- The `k` entries from `pos` on move one place up, the last one first.
unfoldable pub shift_right : Page → ℕ → ℕ → Page
shift_right p pos zero = p
shift_right p pos (suc k) = shift_right (copy_entry p (pos + k) (pos + k + 1)) pos k

unfoldable pub insert : Page → ℕ → Rid → Page × Bool
insert p key rid =
    let n = get_num_keys p in
    if leb leaf_max_entries n
    then (p, false)
    else (let pos = key_index p key in
        let q = shift_right p pos (n - pos) in
        (set_num_keys (set_rid_at (set_key_at q pos key) pos rid) (n + 1), true))

unfoldable pub lookup : Page → ℕ → Rid
lookup p key =
    let pos = key_index p key in
    if ltb pos (get_num_keys p) && get_key_at p pos == key then get_rid_at p pos else invalid_rid

-- The `k` entries behind `i` move one place down, the first one first.
unfoldable pub shift_left : Page → ℕ → ℕ → Page
shift_left p i zero = p
shift_left p i (suc k) = shift_left (copy_entry p (i + 1) i) (i + 1) k

unfoldable pub remove : Page → ℕ → Page × Bool
remove p key =
    let pos = key_index p key in
    let n = get_num_keys p in
    if leb n pos || not (get_key_at p pos == key)
    then (p, false)
    else (set_num_keys (shift_left p pos (n - 1 - pos)) (n - 1), true)
