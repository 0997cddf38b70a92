-- ===== src/Http/Parser/RoundTrip/Get.antt =====
-- `parse` on a GET request, with whatever follows it in the buffer.
use adl_server.Base.{
  ℕ, zero, suc, ◌≤◌, ◌<◌, ◌≡◌, refl, ◌∙◌, Bytes, length, Memory, arith, ok, Option, ℤ,
}
use adl_server.Http.Request.{get}
use adl_server.Http.Parser.Grammar.{Message, print, head_length, IsMessage}
use adl_server.Http.Parser.Locate.{At}
use adl_server.Http.Parser.{Parser, init, success, after_head_ok, parse}
use adl_server.Http.Parser.RoundTrip.Rounds.{read_request, headed, succeeded, two_rounds}

-- A GET request is read back, wherever it is cut off behind its blank line: with a round for each
-- header line and two for the message, `parse` succeeds. It finds the method, the URL, the version
-- and the header map, and takes exactly the bytes of the request, whatever follows them.
pub parse-print_get :
    (stoi : Bytes → Option ℤ) (head_fuel fuel : ℕ) (m : Memory) (len : ℕ) (r : Message)
    (rest : Bytes)
    → IsMessage r
    → r.method ≡ get
    → At m 0 (print r rest)
    → head_length r ≤ len
    → length r.fields < head_fuel
    → 2 ≤ fuel
    → (q : Parser) × (parse stoi head_fuel fuel (init m len) ≡ ok q)
      × (q.final ≡ success)
      × (q.request ≡ record (read_request r) { parse_size = head_length r })
parse-print_get stoi head_fuel zero m len r rest v g h l n f = absurd (omega arith)
parse-print_get stoi head_fuel (suc zero) m len r rest v g h l n f = absurd (omega arith)
parse-print_get stoi head_fuel (suc (suc fuel)) m len r rest v g h l n f = (
  succeeded (headed m len r),
  two_rounds stoi head_fuel m len r rest v h l fuel n ∙ rw g (unfold after_head_ok in refl),
  refl,
  refl,
)
