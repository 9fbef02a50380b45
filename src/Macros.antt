-- ===== src/Macros.antt =====
-- stream/macros/src: the attribute macros that write the code of tasks. What the package syn parses is
-- the input, as data; an expansion is what is asked of the generated code, and the generated code is
-- a function from the accessors of the user's struct to the task that the framework handles. A macro
-- that panics, which is an error of the compilation, is `none`.
pub mod Syntax
pub mod Signatures
pub mod Endpoint
pub mod Service
pub mod Agree
pub mod ClientTask
pub mod Checks
pub mod Generated
pub mod ClientEnum
pub mod ServerEnum
pub mod Tasks
pub mod Arms
pub mod Actions
