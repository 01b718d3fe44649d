-- ===== src/Exchange/Tests.antt =====
-- `pyflex/zrx.py`: an order that the theorems are tried on.
use pyflex.Base.{ℕ, [], ◌∷◌, some, ◌≡◌, refl}
use pyflex.Base.Int.{ℤ, pos}
use pyflex.Base.Results.{ok}
use pyflex.Numeric.Amount.{amount}
use pyflex.Exchange.Order.{Signature, Order, Texts, from_json, to_json}
use pyflex.Exchange.Zrx.{create_order}
use pyflex.Exchange.Json.{from_json-to_json}

-- Texts as what they are read to.
abbrev texts : Texts (ℤ × ℕ)
texts = record {
  str = λ n. (n, 0);
  int = λ t. ok t.0;
  lower = λ a. (pos 0, a);
  address = λ t. ok t.1;
}

abbrev signed : Signature
signed = record { r = 1 ∷ 2 ∷ []; s = 3 ∷ 4 ∷ []; v = pos 27 }

abbrev order : Order
order = create_order 5 6 (pos 77) 8 (amount (pos 1000)) 9 (amount (pos 500)) (pos 1600000000)

from_json-to_json_example :
    from_json texts (to_json texts (record order { signature = some signed }))
    ≡ ok (record order { signature = some signed })
from_json-to_json_example =
    from_json-to_json texts (λ n. refl) (λ a. refl) (record order { signature = some signed })
