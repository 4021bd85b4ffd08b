-- ===== src/Domain.antt =====
-- The immutable contracts of src/domain/common.py and src/domain/portfolio.py: one record for each
-- class and one function for each validator. A contract is valid if its fields meet their declared
-- constraints and its validator returns it.
--
-- Identifiers, hashes, currencies, symbols and other texts are numbers: the code only compares
-- them. A timestamp is its microseconds in UTC since the epoch, and a date its days.
pub mod Common
pub mod Orders
pub mod Fills
pub mod Bars
pub mod Dividends
pub mod Contracts
pub mod Coverage
