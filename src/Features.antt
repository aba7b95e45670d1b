-- ===== src/Features.antt =====
-- The programs that show a feature of the language: static, try-catch, virtual_base, virtual_fun,
-- base-derived_compatibility. Each is what it prints, in the order of the language's rules.
pub mod Statics
pub mod Exceptions
pub mod Construction
pub mod Dispatch
