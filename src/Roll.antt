-- ===== src/Roll.antt =====
-- server/roll: the dice generator, the channel reader and the rules that interpret the dice.
pub mod Roller
pub mod Generator
