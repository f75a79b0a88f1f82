-- ===== src/Login.antt =====
-- Who is let in: the throttle on connections (src/ban.cpp) and the queue of a full server
-- (src/waitlist.cpp).
pub mod Ban
pub mod WaitList
