-- ===== src/League/Deals.antt =====
-- Who plays whom in the games of a batch.
