-- ===== src/Tests.antt =====
-- The theorems at concrete inputs, and runs of the definitions.
mod Bindings
mod Catalog
mod Clause
mod Connection
mod Convert
mod Diagnostics
mod Fetch
mod Field
mod Multibyte
mod Options
mod Attribute
mod Parse
mod Result
mod Statement
mod Text
mod Types
mod Unicode
