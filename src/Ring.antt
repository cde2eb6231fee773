-- ===== src/Ring.antt =====
-- The arithmetic of a ring of `size` slots with a head and a tail index, which the two queues of
-- subscriber/include/SPSCQueue.h and subscriber/include/MessageQueue.h share.
pub mod Index
pub mod Size
pub mod Window
pub mod Contents
