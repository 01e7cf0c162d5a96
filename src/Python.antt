-- ===== src/Python.antt =====
-- What the program uses of Python itself: exceptions as values, `float`, UTC instants,
-- and statements: Bind for those that may raise, Step for those that also change a state.
pub mod Errors
pub mod Float
pub mod Decimal
pub mod Bind
pub mod Step
pub mod Ends
pub mod Obeys
