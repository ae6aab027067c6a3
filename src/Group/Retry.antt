-- ===== src/Group/Retry.antt =====
-- What is left of a write that the log storage refuses for the moment.
