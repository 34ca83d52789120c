-- ===== src/Combat.antt =====
-- internal/combat: the tables of the dungeon game, the check of a reported run, and its settlement.
pub mod Config
pub mod Validator
pub mod Service
pub mod Handler
