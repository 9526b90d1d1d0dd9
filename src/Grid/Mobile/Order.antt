-- ===== src/Grid/Mobile/Order.antt =====
-- `orderMobileSessions` lists every running session of a known server once.
