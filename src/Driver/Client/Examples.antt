-- ===== src/Driver/Client/Examples.antt =====
-- x
