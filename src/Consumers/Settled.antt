-- ===== src/Consumers/Settled.antt =====
-- What settling an inserted batch comes to with an encoder that refuses bytes.
