-- ===== src/Os.antt =====
-- What the program does not implement: the allocator, FreeRTOS (queues, counting semaphores, the
-- tick counter, task notifications), the radio and the application's callbacks. Each is answered by
-- `Env`, a parameter of the model, from the list of all calls made so far; each call is recorded.
pub mod Messages
pub mod Calls
pub use Messages.*
pub use Calls.*
