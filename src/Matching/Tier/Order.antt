-- ===== src/Matching/Tier/Order.antt =====
-- src/matching/tier_score.c: how direct matches stand to others.
