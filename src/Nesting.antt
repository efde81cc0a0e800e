-- ===== src/Nesting.antt =====
-- The nesting of namespaces, classes and blocks: build_support/cpplint.py, `_BlockInfo` and its
-- subclasses, `_PreprocessorInfo` and `NestingState`. The last entry of a stack of the source is
-- the head of the list here. Blocks are values: the source's copies of the stack are deep where a
-- later change to the original could show.
pub mod Blocks
pub mod Checks
pub mod Template
pub mod Preprocessor
pub mod Braces
pub mod Update
