-- ===== src/DiskManager/Pages.antt =====
-- The page file as a map from identifiers to pages.
use persist_x.Base.{
  ℕ, ◌+◌, ◌-◌, ◌*◌, ◌≡◌, ◌≢◌, ◌<◌, refl, sym, ap, ◌∙◌, arith, true, false, ltb, leb, if◌then◌else◌,
  ◌&&◌, le→leb, lt→ltb,
}
use persist_x.Types.{page_size}
use persist_x.Page.{Page}
use persist_x.DiskManager.{DiskManager, byte_at, read_page, write_page}

-- The bytes of a page on disk.
abbrev pub disk_page : DiskManager → ℕ → ℕ → ℕ
disk_page d page_id i = byte_at d (page_id * page_size + i)

-- Two pages with the same 4096 bytes.
abbrev pub SamePage : Page → Page → Type 0
SamePage p q = (i : ℕ) → i < page_size → p i ≡ q i

pub read_page-SamePage :
    (d : DiskManager) (page_id : ℕ) (dest : Page)
    → SamePage (read_page d page_id dest) (disk_page d page_id)
unfolding read_page
read_page-SamePage d page_id dest i h = ground arith

-- What a write leaves of its page.
abbrev pub left : DiskManager → ℕ → Page → Page
left d page_id src =
    if d.writable page_id then src else d.after_failure page_id (disk_page d page_id) src

byte_at-write_page :
    (d : DiskManager) (page_id : ℕ) (src : Page) (j : ℕ)
    → byte_at (write_page d page_id src).0 j ≡ (
        if leb (page_id * page_size) j && ltb j (page_id * page_size + page_size)
        then left d page_id src (j - page_id * page_size)
        else byte_at d j)
unfolding write_page byte_at
byte_at-write_page d page_id src j = ground arith

pub write_page-writable :
    (d : DiskManager) (page_id : ℕ) (src : Page) → (write_page d page_id src).1 ≡ d.writable page_id
unfolding write_page
write_page-writable d page_id src = refl

write_page-left :
    (d : DiskManager) (page_id : ℕ) (src : Page)
    → SamePage (disk_page (write_page d page_id src).0 page_id) (left d page_id src)
write_page-left d page_id src i h =
    let k : page_id * page_size + i - page_id * page_size ≡ i = omega arith in
    let low : leb (page_id * page_size) (page_id * page_size + i) ≡ true =
      le→leb _ _ (omega arith) in
    let high : ltb (page_id * page_size + i) (page_id * page_size + page_size) ≡ true =
      lt→ltb _ _ (omega (arith, h)) in
    byte_at-write_page d page_id src (page_id * page_size + i)
    ∙ rw (low, high) (ap (left d page_id src) k)

-- A write that goes through puts the page on disk, one that fails leaves what it leaves, and both
-- leave every other page as it was.
pub write_page_self :
    (d : DiskManager) (page_id : ℕ) (src : Page)
    → (write_page d page_id src).1 ≡ true
    → SamePage (disk_page (write_page d page_id src).0 page_id) src
write_page_self d page_id src e i h =
    write_page-left d page_id src i h ∙ rw (sym (write_page-writable d page_id src) ∙ e) refl

pub write_page-failed :
    (d : DiskManager) (page_id : ℕ) (src : Page)
    → (write_page d page_id src).1 ≡ false
    → SamePage
        (disk_page (write_page d page_id src).0 page_id)
        (d.after_failure page_id (disk_page d page_id) src)
write_page-failed d page_id src e i h =
    write_page-left d page_id src i h ∙ rw (sym (write_page-writable d page_id src) ∙ e) refl

pub write_page-other :
    (d : DiskManager) (page_id other : ℕ) (src : Page)
    → other ≢ page_id
    → SamePage (disk_page (write_page d page_id src).0 other) (disk_page d other)
write_page-other d page_id other src ne i h =
    byte_at-write_page d page_id src (other * page_size + i) ∙ ground (arith, ne, h)

pub write_page-next :
    (d : DiskManager) (page_id : ℕ) (src : Page)
    → (write_page d page_id src).0.next_page_id ≡ d.next_page_id
unfolding write_page
write_page-next d page_id src = refl

pub write_page-keeps_writable :
    (d : DiskManager) (page_id : ℕ) (src : Page)
    → (write_page d page_id src).0.writable ≡ d.writable
unfolding write_page
write_page-keeps_writable d page_id src = refl

pub write_page-keeps_after_failure :
    (d : DiskManager) (page_id : ℕ) (src : Page)
    → (write_page d page_id src).0.after_failure ≡ d.after_failure
unfolding write_page
write_page-keeps_after_failure d page_id src = refl
