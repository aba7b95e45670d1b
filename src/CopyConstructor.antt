-- ===== src/CopyConstructor.antt =====
-- copy-constructor/main.cpp: the class `testclass`, whose objects own a block of the heap.
pub mod Memory
pub mod TestClass
pub mod Faults
pub mod Program
pub mod Copies
