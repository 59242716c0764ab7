-- ===== src/Tests/Prices.antt =====
-- Three varints: 300, -5 and one without an end.
use tdxrs.Base.{◌+◌, ◌≡◌, [], ◌∷◌, ◌++◌, length, arith, All}
use tdxrs.Base.Int.{ℤ}
use tdxrs.Bytes.{Bytes, IsByte}
use tdxrs.Price.{get_price}
use tdxrs.Price.RoundTrip.{encode_price, get_price-encode_price}
use tdxrs.Price.Bounds.{Reads, get_price-Reads}

abbrev endless : Bytes
endless = 255 ∷ 255 ∷ 129 ∷ []

endless-IsByte : All IsByte endless
endless-IsByte = (omega arith, (omega arith, (omega arith, tt)))

get_price-encode_price_example :
    get_price ((7 ∷ []) ++ (encode_price (ℤ.negsuc 299) ++ (9 ∷ []))) 1
    ≡ (ℤ.negsuc 299, 1 + length (encode_price (ℤ.negsuc 299)))
get_price-encode_price_example =
    get_price-encode_price (ℤ.negsuc 299) (7 ∷ []) (9 ∷ []) (omega arith, omega arith)

get_price-Reads_example : Reads 0 3 (get_price endless 0)
get_price-Reads_example = get_price-Reads endless 0 endless-IsByte
