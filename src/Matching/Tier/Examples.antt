-- ===== src/Matching/Tier/Examples.antt =====
-- Scores of a query on two lines.
