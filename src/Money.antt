-- ===== src/Money.antt =====
-- packages/shared/money.mjs: exact money in BigInt cents. Text is a list of code units.
-- A JavaScript number enters as what `Math.round(value * 100)` gives for it (`finite`), which is
-- all that the code does with one; floating point itself is not modelled, so cents stay within
-- the integers that a Number holds exactly.
pub mod Digits
pub mod Convert
pub mod Reading
pub mod RoundTrip
