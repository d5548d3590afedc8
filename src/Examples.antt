-- ===== src/Examples.antt =====
-- Concrete inputs at which the theorems are applied.
mod Jobs
mod Prices
mod Money
mod Texts
mod Accounts
mod Photos
mod Workbook
mod Signups
mod Requests
mod Catalogue
mod Products
mod Saving
mod Registry
