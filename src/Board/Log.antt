-- ===== src/Board/Log.antt =====
-- A board of `InMemoryStore` (src/blackboard/_board.py) against its list of changes: the abstract view
-- in which a board is the sequence of what was written, and all else is read off it.
pub mod Views
pub mod Keeps
pub mod Writes
pub mod Others
