-- ===== src/BtreePage.antt =====
-- include/btree_page.hpp and src/btree_page.cpp: the two node layouts of the B+ tree over the bytes
-- of a page. A node is the page's memory, as in the record pages; it has PAGE_SIZE bytes.
pub mod Keys
pub mod Leaf
pub mod Internal
mod Tests
