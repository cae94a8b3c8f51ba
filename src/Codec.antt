-- ===== src/Codec.antt =====
-- The byte-level encodings of Python's standard library that the program uses: `struct.pack`,
-- `bytes.hex` and `bytes.fromhex`, and `str.encode("utf-8")`.
-- A byte string is a list of numbers below 256, a `str` the list of its code points.
pub mod Words
pub mod Numbers
pub mod Hex
pub mod Utf8
pub mod Ascii
