-- ===== src/Runtime.antt =====
-- The parts of Go and of its standard library that the program rests on: error results, byte
-- readers (package io, bytes.Buffer, bytes.Reader), fixed-size integers (encoding/binary).
pub mod Result
pub mod Endian
pub mod Reader
