-- ===== src/Python.antt =====
-- What the code uses of Python's standard library: `sorted` and `heapq.nsmallest`, text, and the
-- values of `json`.
pub mod Sorting
pub mod Text
pub mod Json
pub mod Crc32
pub mod Utf8
pub mod Struct
