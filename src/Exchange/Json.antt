-- ===== src/Exchange/Json.antt =====
-- The JSON form of an order of `pyflex/zrx.py` and the order that is read from it.
use pyflex.Base.{ℕ, Option, none, some, ◌≡◌, refl}
use pyflex.Base.Int.{ℤ}
use pyflex.Base.Results.{ok}
use pyflex.Numeric.Wad
use pyflex.Exchange.Order.{
  Signature, Order, Texts, from_json, to_json, signature_json, signature_in, object,
}

-- The signature comes back.
signature_roundtrip :
    (Text : Type 0) (signature : Option Signature)
    → signature_in {Text = Text} (ok (object (signature_json signature))) ≡ ok signature
unfolding signature_in signature_json
signature_roundtrip Text none = refl
signature_roundtrip Text (some signature) = refl

-- If Python reads back the texts of integers and of addresses, then an order is what is read from its
-- JSON form, signed or not.
pub from_json-to_json :
    {Text : Type 0} (texts : Texts Text)
    → ((n : ℤ) → texts.int (texts.str n) ≡ ok n)
    → ((a : ℕ) → texts.address (texts.lower a) ≡ ok a)
    → (order : Order) → from_json texts (to_json texts order) ≡ ok order
unfolding from_json to_json Wad.new
from_json-to_json texts int_str address_lower order =
    simp (int_str, address_lower, signature_roundtrip)
