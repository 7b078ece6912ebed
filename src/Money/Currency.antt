-- ===== src/Money/Currency.antt =====
-- shared/money.ts: the ISO 4217 table and the currency codes.
use alpha_shadow.Prelude.{
  ℕ, Bool, none, some, List, [], ◌∷◌, ◌&&◌, Text, codes, leb, Result, ok, err, validation, all,
  length, ◌==◌, text_eq, if◌then◌else◌,
}
use alpha_shadow.Prelude.Assoc.{get, has}

-- A string that passed `isCurrencyCode`, the branded type of the source.
abbrev pub CurrencyCode : Type 0
CurrencyCode = Text

-- Each active currency with the number of decimal digits of its minor unit.
unfoldable pub iso_4217_minor_units : List (Text × ℕ)
iso_4217_minor_units =
    (codes "AED", 2)
    ∷ (codes "AFN", 2)
    ∷ (codes "ALL", 2)
    ∷ (codes "AMD", 2)
    ∷ (codes "ANG", 2)
    ∷ (codes "AOA", 2)
    ∷ (codes "ARS", 2)
    ∷ (codes "AUD", 2)
    ∷ (codes "AWG", 2)
    ∷ (codes "AZN", 2)
    ∷ (codes "BAM", 2)
    ∷ (codes "BBD", 2)
    ∷ (codes "BDT", 2)
    ∷ (codes "BGN", 2)
    ∷ (codes "BHD", 3)
    ∷ (codes "BIF", 0)
    ∷ (codes "BMD", 2)
    ∷ (codes "BND", 2)
    ∷ (codes "BOB", 2)
    ∷ (codes "BOV", 2)
    ∷ (codes "BRL", 2)
    ∷ (codes "BSD", 2)
    ∷ (codes "BTN", 2)
    ∷ (codes "BWP", 2)
    ∷ (codes "BYN", 2)
    ∷ (codes "BZD", 2)
    ∷ (codes "CAD", 2)
    ∷ (codes "CDF", 2)
    ∷ (codes "CHE", 2)
    ∷ (codes "CHF", 2)
    ∷ (codes "CHW", 2)
    ∷ (codes "CLF", 4)
    ∷ (codes "CLP", 0)
    ∷ (codes "CNY", 2)
    ∷ (codes "COP", 2)
    ∷ (codes "COU", 2)
    ∷ (codes "CRC", 2)
    ∷ (codes "CUP", 2)
    ∷ (codes "CVE", 2)
    ∷ (codes "CZK", 2)
    ∷ (codes "DJF", 0)
    ∷ (codes "DKK", 2)
    ∷ (codes "DOP", 2)
    ∷ (codes "DZD", 2)
    ∷ (codes "EGP", 2)
    ∷ (codes "ERN", 2)
    ∷ (codes "ETB", 2)
    ∷ (codes "EUR", 2)
    ∷ (codes "FJD", 2)
    ∷ (codes "FKP", 2)
    ∷ (codes "GBP", 2)
    ∷ (codes "GEL", 2)
    ∷ (codes "GHS", 2)
    ∷ (codes "GIP", 2)
    ∷ (codes "GMD", 2)
    ∷ (codes "GNF", 0)
    ∷ (codes "GTQ", 2)
    ∷ (codes "GYD", 2)
    ∷ (codes "HKD", 2)
    ∷ (codes "HNL", 2)
    ∷ (codes "HTG", 2)
    ∷ (codes "HUF", 2)
    ∷ (codes "IDR", 2)
    ∷ (codes "ILS", 2)
    ∷ (codes "INR", 2)
    ∷ (codes "IQD", 3)
    ∷ (codes "IRR", 2)
    ∷ (codes "ISK", 0)
    ∷ (codes "JMD", 2)
    ∷ (codes "JOD", 3)
    ∷ (codes "JPY", 0)
    ∷ (codes "KES", 2)
    ∷ (codes "KGS", 2)
    ∷ (codes "KHR", 2)
    ∷ (codes "KMF", 0)
    ∷ (codes "KPW", 2)
    ∷ (codes "KRW", 0)
    ∷ (codes "KWD", 3)
    ∷ (codes "KYD", 2)
    ∷ (codes "KZT", 2)
    ∷ (codes "LAK", 2)
    ∷ (codes "LBP", 2)
    ∷ (codes "LKR", 2)
    ∷ (codes "LRD", 2)
    ∷ (codes "LSL", 2)
    ∷ (codes "LYD", 3)
    ∷ (codes "MAD", 2)
    ∷ (codes "MDL", 2)
    ∷ (codes "MGA", 2)
    ∷ (codes "MKD", 2)
    ∷ (codes "MMK", 2)
    ∷ (codes "MNT", 2)
    ∷ (codes "MOP", 2)
    ∷ (codes "MRU", 2)
    ∷ (codes "MUR", 2)
    ∷ (codes "MVR", 2)
    ∷ (codes "MWK", 2)
    ∷ (codes "MXN", 2)
    ∷ (codes "MXV", 2)
    ∷ (codes "MYR", 2)
    ∷ (codes "MZN", 2)
    ∷ (codes "NAD", 2)
    ∷ (codes "NGN", 2)
    ∷ (codes "NIO", 2)
    ∷ (codes "NOK", 2)
    ∷ (codes "NPR", 2)
    ∷ (codes "NZD", 2)
    ∷ (codes "OMR", 3)
    ∷ (codes "PAB", 2)
    ∷ (codes "PEN", 2)
    ∷ (codes "PGK", 2)
    ∷ (codes "PHP", 2)
    ∷ (codes "PKR", 2)
    ∷ (codes "PLN", 2)
    ∷ (codes "PYG", 0)
    ∷ (codes "QAR", 2)
    ∷ (codes "RON", 2)
    ∷ (codes "RSD", 2)
    ∷ (codes "RUB", 2)
    ∷ (codes "RWF", 0)
    ∷ (codes "SAR", 2)
    ∷ (codes "SBD", 2)
    ∷ (codes "SCR", 2)
    ∷ (codes "SDG", 2)
    ∷ (codes "SEK", 2)
    ∷ (codes "SGD", 2)
    ∷ (codes "SHP", 2)
    ∷ (codes "SLE", 2)
    ∷ (codes "SOS", 2)
    ∷ (codes "SRD", 2)
    ∷ (codes "SSP", 2)
    ∷ (codes "STN", 2)
    ∷ (codes "SVC", 2)
    ∷ (codes "SYP", 2)
    ∷ (codes "SZL", 2)
    ∷ (codes "THB", 2)
    ∷ (codes "TJS", 2)
    ∷ (codes "TMT", 2)
    ∷ (codes "TND", 3)
    ∷ (codes "TOP", 2)
    ∷ (codes "TRY", 2)
    ∷ (codes "TTD", 2)
    ∷ (codes "TWD", 2)
    ∷ (codes "TZS", 2)
    ∷ (codes "UAH", 2)
    ∷ (codes "UGX", 0)
    ∷ (codes "USD", 2)
    ∷ (codes "USN", 2)
    ∷ (codes "UYI", 0)
    ∷ (codes "UYU", 2)
    ∷ (codes "UYW", 4)
    ∷ (codes "UZS", 2)
    ∷ (codes "VED", 2)
    ∷ (codes "VES", 2)
    ∷ (codes "VND", 0)
    ∷ (codes "VUV", 0)
    ∷ (codes "WST", 2)
    ∷ (codes "XAF", 0)
    ∷ (codes "XAG", 0)
    ∷ (codes "XAU", 0)
    ∷ (codes "XBA", 0)
    ∷ (codes "XBB", 0)
    ∷ (codes "XBC", 0)
    ∷ (codes "XBD", 0)
    ∷ (codes "XCD", 2)
    ∷ (codes "XDR", 0)
    ∷ (codes "XOF", 0)
    ∷ (codes "XPD", 0)
    ∷ (codes "XPF", 0)
    ∷ (codes "XPT", 0)
    ∷ (codes "XSU", 0)
    ∷ (codes "XTS", 0)
    ∷ (codes "XUA", 0)
    ∷ (codes "XXX", 0)
    ∷ (codes "YER", 2)
    ∷ (codes "ZAR", 2)
    ∷ (codes "ZMW", 2)
    ∷ (codes "ZWL", 2)
    ∷ []

-- `^[A-Z]{3}$`
unfoldable pub currency_code_pattern : Text → Bool
currency_code_pattern text = (length text == 3) && all (λ c. leb b'A' c && leb c b'Z') text

unfoldable pub is_currency_code : Text → Bool
unfolding currency_code_pattern
is_currency_code value = currency_code_pattern value && has value iso_4217_minor_units

unfoldable pub currency_code : Text → Result CurrencyCode
unfolding is_currency_code
currency_code value = if is_currency_code value then ok value else err validation

unfoldable pub minor_unit_scale : CurrencyCode → Result ℕ
minor_unit_scale currency = elim (get currency iso_4217_minor_units) [
  | none ↦ err validation
  | some scale ↦ ok scale
]
