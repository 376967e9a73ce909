-- ===== src/SlateLayout/Overflow.antt =====
-- The part of `allocate_element` that refuses a shard that is too large.
