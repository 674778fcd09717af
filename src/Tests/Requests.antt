-- ===== src/Tests/Requests.antt =====
-- Requests of src/piki/integrations/buenpick/client.py, and an amount that it formats.
use Prim.Native.String.{◌++◌ as append}
use buenpick_piki.Base.Url.{quote}
use buenpick_piki.Base.{
  ℕ, zero, suc, ◌≡◌, ◌<◌, String, Option, none, some, List, [], true, false, ◌∷◌, arith,
}
use buenpick_piki.Base.Failure.{Result, ok}
use buenpick_piki.BuenPick.Money.{format_ars_cents}
use buenpick_piki.BuenPick.Money.Read.{read_ars_cents, read-format_ars_cents}
use buenpick_piki.BuenPick.Client.{Fetched, timed_out, response, request}
use buenpick_piki.BuenPick.Client.{get_customer_order, given, stripped, Action}
use buenpick_piki.BuenPick.Models.{Answer, CustomerOrder, raises}
use buenpick_piki.Domain.Tools.{bad_request}
use buenpick_piki.BuenPick.Attempts.{Settles, request-Settles, order_proofs}

-- a timeout, and answers after it
abbrev fetch : ℕ → Fetched
fetch zero = timed_out
fetch (suc zero) = timed_out
fetch (suc (suc n)) = response 200 "body"

abbrev validate : String → Option ℕ
validate body = some 7

request-Settles_example :
    (k : ℕ) × (k < 2)
    × Settles validate fetch 2 "picks/search" [] 1 k (request validate fetch 2 "picks/search" [])
request-Settles_example = request-Settles validate fetch 2 "picks/search" [] (omega arith)

read-format_ars_cents_example : read_ars_cents (format_ars_cents 123456) ≡ some 123456
read-format_ars_cents_example = read-format_ars_cents 123456 (omega arith)

abbrev no_order : String → Option CustomerOrder
no_order body = none

abbrev told : Result (Answer CustomerOrder) × List Action
told = get_customer_order fetch 2 no_order "o" (some "  ") (some "ref")

abbrev sent : List (String × String) → Result (Answer CustomerOrder) × List Action
sent = request no_order fetch 2 (append "orders/" (quote "o"))

order_proofs_example :
    ((given (some "  ") ≡ given (some "ref"))
      → (told.1 ≡ [])
        × (told.0
            ≡ ok (
                raises (record {
                  code = bad_request;
                  user_safe_message = "La orden requiere una unica prueba de pertenencia.";
                  status_code = none;
                }))))
    × ((given (some "  ") ≡ true)
        → (given (some "ref") ≡ false)
        → told ≡ sent (("customer_phone", stripped (some "  ")) ∷ []))
    × ((true ≡ false)
        → (given (some "ref") ≡ true)
        → told ≡ sent (("customer_reference", stripped (some "ref")) ∷ []))
    × ((true ≡ true)
        → (given (some "  ") ≡ false)
        → (given (some "ref") ≡ true)
        → told ≡ sent (("customer_phone", String.[]) ∷ []))
order_proofs_example = order_proofs no_order fetch 2 "o" (some "  ") (some "ref")
