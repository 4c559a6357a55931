-- ===== src/Fix/Adapters/Price.antt =====
-- What a mutated execution report says.
