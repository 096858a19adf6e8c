-- ===== src/Bots/Tests.antt =====
-- Runs of the bot's models over a store that holds texts under keys.
mod Codec
mod Runs
