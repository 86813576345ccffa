-- ===== src/Server/Routing/Examples.antt =====
-- A client for a bank that is passed through.
use mirage_chaff.Base.{ℕ, ◌≡◌, refl, List, [], ◌∷◌, replicate, take, drop, arith, if◌then◌else◌}
use mirage_chaff.Base.Text.{Text, codes, text_eq}
use mirage_chaff.Base.Scan.{ok}
use mirage_chaff.Base.Int.{pos}
use mirage_chaff.Policy.Glob.{compile_glob}
use mirage_chaff.Policy.Rules.{Ruleset, action_passthrough, match_request}
use mirage_chaff.Policy.Load.{safe_default}
use mirage_chaff.Base.{none}
use mirage_chaff.Passthrough.Sni.Hello.{Hello, IsHello, hello_wire}
use mirage_chaff.Passthrough.Peek.{hello_total}
use mirage_chaff.Passthrough.Peek.Fragments.{IsMessage}
use mirage_chaff.Server.Routing.{route, spliced, delivered}
use mirage_chaff.Server.Routing.Names.{client, route-hello}

abbrev bank : Text
bank = codes "bank"

abbrev banks : Ruleset
banks = record {
  rules =
      record {
        name = codes "banks";
        priority = pos 1;
        condition = record { domain = codes "bank*"; path = []; method = [] };
        action = action_passthrough;
        catalog = [];
        domain_re = compile_glob (codes "bank*");
        path_re = compile_glob [];
        methods = none;
      }
      ∷ [];
  default = safe_default;
}

abbrev greeting : Hello
greeting = record {
  fixed = replicate 34 7;
  session = [];
  suites = 0x13 ∷ 0x01 ∷ [];
  methods = 0 ∷ [];
  before = [];
  others = [];
  host = bank;
  more_names = [];
  trailing = [];
  after = [];
  rest = [];
}

greeting-IsHello : IsHello greeting
greeting-IsHello = record { fixed_34 = refl; before_other = tt; names_other = tt }

greeting-IsMessage : IsMessage (hello_wire greeting)
unfolding hello_total
greeting-IsMessage = (refl, omega arith)

abbrev head : List ℕ
head = take 9 (hello_wire greeting)

abbrev tail : List ℕ
tail = drop 9 (hello_wire greeting)

route-hello_example :
    route banks (client (3, 1) (head ∷ tail ∷ []) (5 ∷ []))
    ≡ ok (
        if text_eq (match_request banks bank [] []).action (codes "passthrough")
        then spliced bank (client (3, 1) (head ∷ tail ∷ []) (5 ∷ []))
        else delivered (client (3, 1) (head ∷ tail ∷ []) (5 ∷ [])))
route-hello_example =
    route-hello banks greeting (3, 1) head (tail ∷ []) (5 ∷ []) greeting-IsHello (λ e. cc) refl
      (omega arith) ((omega arith, omega arith), ((omega arith, omega arith), tt))
      greeting-IsMessage
