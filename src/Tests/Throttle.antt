-- ===== src/Tests/Throttle.antt =====
-- Three requests of one client and one of another, under a limit of two.
use justmail.Prelude.{ℕ, ◌≡◌, true, false, [], ◌∷◌, List, none, Text, codes, refl, arith}
use justmail.Throttle.{ThrottleOptions, Request, key_of}
use justmail.Throttle.Window.{Arrival, admitted}
use justmail.Throttle.Limit.{counted, lesser, admitted_lem}

abbrev global : ThrottleOptions
global = record { limit = 2; ttl = 60 }

abbrev from : Text → Request
from ip = record {
  is_http = true;
  skip = false;
  override = none;
  class_name = codes "AuthController";
  handler_name = codes "login";
  ip = ip;
  remote_address = [];
}

abbrev at : Text → ℕ → Arrival
at ip now = record { request = from ip; now = now }

abbrev first : Arrival
first = at (codes "1.2.3.4") 1000

abbrev rest : List Arrival
rest = at (codes "1.2.3.4") 1500 ∷ at (codes "5.6.7.8") 1600 ∷ at (codes "1.2.3.4") 2000 ∷ []

admitted_lem_example :
    admitted global (key_of first.request) (first ∷ rest) []
    ≡ lesser (counted (key_of first.request) (first ∷ rest)) 2
admitted_lem_example =
    admitted_lem global (key_of first.request) first rest [] refl refl (ground arith) refl
      ((ground arith, λ e. refl), ((ground arith, λ e. refl), ((ground arith, λ e. refl), tt)))
