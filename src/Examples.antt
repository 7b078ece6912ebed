-- ===== src/Examples.antt =====
-- The theorems at concrete inputs.
mod MoneyCases
mod TaxCases
mod PaymentCases
mod RbacCases
mod OrderCases
mod ShiftCases
mod CollectCases
mod CatalogCases
mod DiscountCases
mod InventoryCases
mod LiabilityCases
