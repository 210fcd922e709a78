-- ===== src/Memory.antt =====
-- What a C function does beside returning: it can access memory outside of an object, or not end.
mod Defs
mod Laws
mod Fill
pub mod State
pub use Defs.{Run, returns, fault, out_of_fuel, ◌>>=◌, or_fault}
unfoldable pub use Defs.{read, write}
pub use Laws.*
pub use Fill.*
