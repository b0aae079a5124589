-- ===== src/Examples/Types.antt =====
-- Times, meta specs and values.
